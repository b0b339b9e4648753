-- ===== src/Server/Buffers/Room.antt =====
-- The bytes in a read buffer and the room behind them.
use muti.Common.{
  set_reference, ℕ, suc, ◌+◌, ◌-◌, ◌<◌, ◌≤◌, ◌≡◌, refl, ◌⊎◌, inl, inr, length, true, none, ok,
  ◌>>=◌, >>=-eq-ok, arith, Bool-cases, ltb,
}
use muti.Server.{
  ServerParam, SConnection, Decoded, free_read_buffer, queue_requests, read_into, park_or_read,
  server_read, read_out, after_decoding,
}

module _ (p : ServerParam) where
  -- A read that runs or waits starts within its buffer, and it has no room only if none of the bytes
  -- before it is processed.
  pub record IsRoomy (c : SConnection) : Type 0 where
    pub within : c.processed + length c.content ≤ p.read_buffer_size
    pub spare :
        ((c.reading ≡ none) × (c.to_read_buf ≡ none))
        ⊎ ((c.processed + length c.content < p.read_buffer_size) ⊎ (c.processed ≡ 0))

  pub free_read_buffer-IsRoomy :
      (b : ℕ) (c c' : SConnection) → free_read_buffer p b c ≡ ok c' → IsRoomy c → IsRoomy c'
  unfolding free_read_buffer
  free_read_buffer-IsRoomy b c c' e h = record {
    within = ground (arith, h.within, e);
    spare = ground (arith, h.spare, e);
  }

  free_twice-IsRoomy :
      (b : ℕ) (c c' : SConnection)
      → (free_read_buffer p b c >>= free_read_buffer p b) ≡ ok c'
      → IsRoomy c
      → IsRoomy c'
  free_twice-IsRoomy b c c' e h =
      let (c₁, run, step) = >>=-eq-ok (free_read_buffer p b c) _ e in
      free_read_buffer-IsRoomy b c₁ c' step (free_read_buffer-IsRoomy b c c₁ run h)

  park_or_read-IsRoomy :
      (b : ℕ) (c c' : SConnection)
      → c.processed ≡ 0
      → length c.content ≤ p.read_buffer_size
      → park_or_read p b true c ≡ ok c'
      → IsRoomy c'
  unfolding park_or_read read_into
  park_or_read-IsRoomy b c c' start fits run = record {
    within = ground (arith, start, fits, run);
    spare = ground (arith, start, run);
  }

  free_read_buffer-content :
      (b : ℕ) (c c' : SConnection)
      → free_read_buffer p b c ≡ ok c'
      → (c'.processed ≡ c.processed) × (c'.content ≡ c.content)
  unfolding free_read_buffer
  free_read_buffer-content b c c' e = ground (arith, e)

  server_read-IsRoomy :
      (b : ℕ) (c c' : SConnection)
      → c.processed + length c.content ≤ p.read_buffer_size
      → server_read p b true c ≡ ok c'
      → IsRoomy c'
  unfolding server_read park_or_read read_into
  server_read-IsRoomy b c c' fits run =
      elim (Bool-cases (ltb (c.processed + length c.content) p.read_buffer_size)) [
        | inl space ↦ record {
          within = ground (arith, space, run, fits);
          spare = ground (arith, space, run);
        }
        | inr full ↦
            let made = record c {
              reference = set_reference c.reference c.next_buffer 1;
              next_buffer = suc c.next_buffer;
              processed = 0;
            } in
            let (c₁, run₁, step) =
              >>=-eq-ok (free_read_buffer p b made) (park_or_read p c.next_buffer true)
                (ground (arith, full, run)) in
            let (start, kept) = free_read_buffer-content b made c₁ run₁ in
            park_or_read-IsRoomy c.next_buffer c₁ c' start (ground (arith, kept, fits)) step
      ]

  -- The read's callback took what was in the buffer and what it brought, and left a part of it.
  pub after_decoding-IsRoomy {ℓ} :
      {R : Type ℓ} (b size : ℕ) (c c' : SConnection) (d : Decoded R)
      → c.to_read_buf ≡ none
      → c.processed + length c.content + size ≤ p.read_buffer_size
      → length d.left ≤ length c.content + size
      → after_decoding p b size true c d ≡ ok c'
      → IsRoomy c'
  unfolding after_decoding queue_requests read_out
  after_decoding-IsRoomy b size c c' d unparked fits less e =
      let held = record c {
        reference = set_reference c.reference b (c.reference b + 1);
        reading = none;
      } in
      let c₁ = record (queue_requests p b (length d.requests) held) {
        processed = c.processed + (length c.content + size - length d.left);
        content = d.left;
      } in
      elim (Bool-cases d.is_open) [
        | inl up ↦
            let fits₁ : c₁.processed + length c₁.content ≤ p.read_buffer_size =
              omega (arith, fits, less) in
            let (c₂, run, step) =
              >>=-eq-ok (server_read p b true c₁) (free_read_buffer p b) (ground (arith, up, e)) in
            free_read_buffer-IsRoomy b c₂ c' step (server_read-IsRoomy b c₁ c₂ fits₁ run)
        | inr shut ↦
            free_twice-IsRoomy b c₁ c' (ground (arith, shut, e))
              (record { within = omega (arith, fits, less); spare = inl (refl, unparked) })
      ]

  -- A state that reads, and holds the same bytes.
  pub same-IsRoomy :
      (c c' : SConnection)
      → c'.processed ≡ c.processed
      → c'.content ≡ c.content
      → ((c'.reading ≡ none) ⊎ (c'.reading ≡ c.reading))
      → ((c'.to_read_buf ≡ none) ⊎ (c'.to_read_buf ≡ c.to_read_buf))
      → IsRoomy c
      → IsRoomy c'
  same-IsRoomy c c' e f r t h = record {
    within = ground (arith, h.within, e, f);
    spare = ground (arith, h.spare, e, f, r, t);
  }
