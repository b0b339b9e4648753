-- ===== src/Server/Buffers/Fresh.antt =====
-- The next read of a connection, into the same buffer or a new one, keeps the holders right.
use muti.Common.{
  set_reference, ℕ, suc, ◌+◌, ◌-◌, ◌<◌, ◌≤◌, ◌≡◌, refl, sym, ap, ◌∙◌, List, [], ◌∷◌, inl, inr,
  length, ltb, ◌≢◌, replicate, count, count-append, count-replicate, true, none, some, ok, ◌>>=◌,
  ◌==◌, arith, Bool-cases,
}
use muti.Wire.{Bytes}
use muti.Server.{
  ServerParam, SConnection, free_read_buffer, queue_requests, read_into, park_or_read, server_read,
}
use muti.Common.Live.{live, live-set-above, live-set-positive}
use muti.Server.Buffers.Sound.{IsSound, free-shared}

module _ (p : ServerParam) (two : 2 ≤ p.max_read_buffer_counter) where
  -- The callback's own reference and those of the requests, behind the read that is over.
  pub queue-IsSound :
      (b n start : ℕ) (kept : Bytes) (c : SConnection)
      → c.reading ≡ some b
      → IsSound p [] c
      → IsSound p
          (b ∷ b ∷ [])
          (record (queue_requests p b n (record c {
            reference = set_reference c.reference b (c.reference b + 1);
            reading = none;
          })) { processed = start; content = kept })
  unfolding queue_requests set_reference
  queue-IsSound b n start kept c e h = record {
    references = λ k. ground (
      arith,
      h.references k,
      e,
      count-append k (replicate n b) c.inflight,
      count-replicate k n b,
    );
    fresh = λ k le. ground (arith, h.fresh k le, h.references b, e);
    counter =
        let made : b < c.next_buffer = ground (arith, h.fresh b, h.references b, e) in
        let f = set_reference c.reference b (c.reference b + 1) in
        let twice =
          live-set-positive c.next_buffer b (f b + n) f made (ground arith) (ground arith) in
        let once =
          live-set-positive c.next_buffer b (c.reference b + 1) c.reference made
            (ground (arith, h.references b, e)) (omega arith) in
        h.counter ∙ sym once ∙ sym twice;
    limit = h.limit;
    reads = λ j f. absurd cc;
    parks = λ j f. let r = h.reads b e in absurd cc;
  }

  -- The connection reads into a buffer whose reader's reference the callback had.
  read_into-IsSound :
      (b : ℕ) (held : List ℕ) (c : SConnection)
      → c.reading ≡ none
      → c.to_read_buf ≡ none
      → c.read_counter < p.max_read_buffer_counter
      → IsSound p (b ∷ held) c
      → IsSound p held (record c { reading = some b })
  read_into-IsSound b held c e f lt h = record {
    references = λ k. ground (arith, h.references k, e);
    fresh = h.fresh;
    counter = h.counter;
    limit = h.limit;
    reads = λ k g. (f, lt);
    parks = λ k g. absurd cc;
  }

  -- A new buffer takes the place of the old one, whose reader's reference goes.
  module _ (b : ℕ) (c : SConnection) (e : c.reading ≡ none) (f : c.to_read_buf ≡ none)
      (lt : c.read_counter < p.max_read_buffer_counter) (h : IsSound p (b ∷ b ∷ []) c) where
    abbrev replaced : SConnection
    replaced = record c {
      reference = set_reference (set_reference c.reference c.next_buffer 1) b (c.reference b - 1);
      next_buffer = suc c.next_buffer;
      processed = 0;
      read_counter = c.read_counter + 1;
    }

    old : (b < c.next_buffer) × (1 < c.reference b)
    old = ground (arith, h.fresh b, h.references b)

    replaced-references :
        (k : ℕ) → replaced.reference k ≡ count k (c.next_buffer ∷ b ∷ []) + count k c.inflight
    unfolding set_reference
    replaced-references k = ground (
      arith,
      h.references k,
      h.fresh c.next_buffer (omega arith),
      h.references c.next_buffer,
      old,
      e,
      f,
    )

    replaced-fresh : (k : ℕ) → replaced.next_buffer ≤ k → replaced.reference k ≡ 0
    unfolding set_reference
    replaced-fresh k le = ground (arith, h.fresh k (omega arith), old)

    replaced-counter : replaced.read_counter ≡ live replaced.next_buffer replaced.reference
    unfolding set_reference
    replaced-counter =
        let g = set_reference c.reference c.next_buffer 1 in
        let above = live-set-above c.next_buffer c.next_buffer 1 c.reference (omega arith) in
        let same =
          live-set-positive c.next_buffer b (c.reference b - 1) g old.0 (ground (arith, old))
            (omega (arith, old.1)) in
        ground (arith, h.counter, above, same, old.0)

    parked-IsSound :
        replaced.read_counter ≡ p.max_read_buffer_counter
        → IsSound p (b ∷ []) (record replaced { to_read_buf = some c.next_buffer })
    parked-IsSound full = record {
      references = λ k. ground (arith, replaced-references k, e);
      fresh = replaced-fresh;
      counter = replaced-counter;
      limit = omega (arith, full);
      reads = λ k g. absurd cc;
      parks = λ k g.
          let here : c.next_buffer ≡ k = cc in
          (
            ground (arith, replaced-references k, h.references k, h.fresh k, here, old, e, f),
            omega (arith, full, two),
          );
    }

    reading-IsSound :
        replaced.read_counter ≢ p.max_read_buffer_counter
        → IsSound p (b ∷ []) (record replaced { reading = some c.next_buffer })
    reading-IsSound room = record {
      references = λ k. ground (arith, replaced-references k, f);
      fresh = replaced-fresh;
      counter = replaced-counter;
      limit = omega (arith, lt);
      reads = λ k g. (f, omega (arith, lt, room));
      parks = λ k g. absurd cc;
    }

    -- The old buffer is given up, and the new one is parked or read into.
    park_or_read-IsSound :
        (c' : SConnection) × ((free_read_buffer p b (record c {
          reference = set_reference c.reference c.next_buffer 1;
          next_buffer = suc c.next_buffer;
          processed = 0;
        })
            >>= park_or_read p c.next_buffer true)
          ≡ ok c')
        × IsSound p (b ∷ []) c'
    unfolding park_or_read read_into set_reference
    park_or_read-IsSound =
        let made = record c {
          reference = set_reference c.reference c.next_buffer 1;
          next_buffer = suc c.next_buffer;
          processed = 0;
        } in
        let same : made.reference b ≡ c.reference b = ground (arith, old) in
        let given =
          free-shared p b made (ground (arith, old))
          ∙ ap (λ t. ok (record made { reference = set_reference made.reference b (t - 1) }))
              same in
        elim (Bool-cases (replaced.read_counter == p.max_read_buffer_counter)) [
          | inl full ↦ (_, rw (given, f, full) refl, parked-IsSound (ground arith))
          | inr room ↦ (_, rw (given, room) refl, reading-IsSound (ground arith))
        ]

    pub server_read-IsSound :
        (c' : SConnection) × (server_read p b true c ≡ ok c') × IsSound p (b ∷ []) c'
    unfolding server_read read_into
    server_read-IsSound =
        elim (Bool-cases (ltb (c.processed + length c.content) p.read_buffer_size)) [
          | inl space ↦ (_, rw space refl, read_into-IsSound b (b ∷ []) c e f lt h)
          | inr full ↦ let (c', run, sound) = park_or_read-IsSound in (c', rw full run, sound)
        ]
