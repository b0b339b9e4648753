-- ===== src/Server/Buffers/Steps.antt =====
-- Each handler of a connection keeps the holders of the read buffers and the counters right.
use muti.Common.{
  set_reference, ℕ, ◌+◌, ◌-◌, ◌<◌, ◌≤◌, ◌≡◌, refl, subst, [], ◌∷◌, inl, inr, length, count,
  drop_one, count-drop_one, Bool, true, false, none, some, ok, arith, Bool-cases, Option-cases,
}
use muti.Server.{
  ServerParam, SConnection, Decoded, read_out, after_decoding, server_read_failed,
  server_do_action_callback, server_on_close, server_on_connect,
}
use muti.Common.Live.{live-set-zero}
use muti.Server.Buffers.Fresh.{queue-IsSound, server_read-IsSound}
use muti.Server.Buffers.Sound.{IsSound, free_read_buffer-IsSound}

module _ (p : ServerParam) (two : 2 ≤ p.max_read_buffer_counter) where
  pub server_on_connect-IsSound : IsSound p [] server_on_connect
  unfolding server_on_connect set_reference
  server_on_connect-IsSound = record {
    references = λ k. ground arith;
    fresh = λ k le. ground arith;
    counter = refl;
    limit = omega arith;
    reads = λ b e. (refl, omega arith);
    parks = λ b e. absurd cc;
  }

  -- A read's callback: each reference that it gives up is its own, and no buffer waits yet.
  pub after_decoding-IsSound {ℓ} :
      {R : Type ℓ} (b size : ℕ) (d : Decoded R) (c : SConnection)
      → c.reading ≡ some b
      → IsSound p [] c
      → (c' : SConnection) × (after_decoding p b size true c d ≡ ok c') × IsSound p [] c'
  unfolding after_decoding read_out
  after_decoding-IsSound b size d c e h =
      let (none_parked, lt) = h.reads b e in
      let n = length d.requests in
      let start = c.processed + (length c.content + size - length d.left) in
      let queued = queue-IsSound p two b n start d.left c e h in
      elim (Bool-cases d.is_open) [
        | inl up ↦
            let (c₁, run₁, sound₁) = server_read-IsSound p two b _ refl none_parked lt queued in
            let (c₂, run₂, sound₂) = free_read_buffer-IsSound p two b [] c₁ sound₁ in
            (c₂, rw (up, run₁, run₂) refl, sound₂)
        | inr shut ↦
            let (c₁, run₁, sound₁) = free_read_buffer-IsSound p two b (b ∷ []) _ queued in
            let (c₂, run₂, sound₂) = free_read_buffer-IsSound p two b [] c₁ sound₁ in
            (c₂, rw (shut, run₁, run₂) refl, sound₂)
      ]

  -- A request whose job was refused only counts.
  pub refused-IsSound :
      (x y : ℕ) (c : SConnection)
      → IsSound p [] c
      → IsSound p [] (record c { received_request_counter = x; sent_request_counter = y })
  refused-IsSound x y c h = record {
    references = h.references;
    fresh = h.fresh;
    counter = h.counter;
    limit = h.limit;
    reads = h.reads;
    parks = h.parks;
  }

  pub server_read_failed-IsSound :
      (b : ℕ) (c : SConnection)
      → c.reading ≡ some b
      → IsSound p [] c
      → (c' : SConnection) × (server_read_failed p b c ≡ ok c') × IsSound p [] c'
  unfolding server_read_failed
  server_read_failed-IsSound b c e h = free_read_buffer-IsSound p two b [] _ record {
    references = λ k. ground (arith, h.references k, e);
    fresh = h.fresh;
    counter = h.counter;
    limit = h.limit;
    reads = λ k g. absurd cc;
    parks = h.parks;
  }

  answered-IsSound :
      (b w s d : ℕ) (c : SConnection)
      → 0 < count b c.inflight
      → IsSound p [] c
      → IsSound p (b ∷ []) (record c {
        inflight = drop_one b c.inflight;
        write_counter = w;
        sent_request_counter = s;
        write_done_counter = d;
      })
  answered-IsSound b w s d c some_request h = record {
    references = λ k. ground (arith, h.references k, count-drop_one k b c.inflight);
    fresh = h.fresh;
    counter = h.counter;
    limit = h.limit;
    reads = h.reads;
    parks = h.parks;
  }

  pub server_do_action_callback-IsSound :
      (b : ℕ) (rc : Bool) (c : SConnection)
      → 0 < count b c.inflight
      → IsSound p [] c
      → (c' : SConnection) × (server_do_action_callback p b rc c ≡ ok c') × IsSound p [] c'
  unfolding server_do_action_callback
  server_do_action_callback-IsSound b true c some_request h =
      free_read_buffer-IsSound p two b [] _ (
        answered-IsSound b (c.write_counter + 1) c.sent_request_counter c.write_done_counter c
          some_request h)
  server_do_action_callback-IsSound b false c some_request h =
      free_read_buffer-IsSound p two b [] _ (
        answered-IsSound b (c.write_counter + 1) (c.sent_request_counter + 1)
          (c.write_done_counter + 1) c some_request h)

  closed-IsSound :
      (b : ℕ) (c : SConnection)
      → c.to_read_buf ≡ some b
      → IsSound p [] c
      → IsSound p [] (record c {
        reference = set_reference c.reference b 0;
        to_read_buf = none;
        read_counter = c.read_counter - 1;
      })
  unfolding set_reference
  closed-IsSound b c e h = record {
    references = λ k. ground (arith, h.references k, h.references b, h.parks b e, e);
    fresh = λ k le. ground (arith, h.fresh k le);
    counter =
        let one = h.parks b e in
        let gone =
          live-set-zero c.next_buffer b c.reference (ground (arith, h.fresh b, one))
            (ground (arith, one)) in
        omega (arith, h.counter, gone);
    limit = omega (arith, h.limit);
    reads = λ k g. let r = h.reads k g in absurd cc;
    parks = λ k g. absurd cc;
  }

  pub server_on_close-IsSound :
      (c : SConnection) → IsSound p [] c → IsSound p [] (server_on_close c)
  unfolding server_on_close set_reference
  server_on_close-IsSound c h = elim (Option-cases c.to_read_buf) [
    | inl e ↦ let same : c ≡ server_on_close c = ground (arith, e) in subst (IsSound p []) same h
    | inr (b, e) ↦
        let same : record c {
          reference = set_reference c.reference b 0;
          to_read_buf = none;
          read_counter = c.read_counter - 1;
        }
            ≡ server_on_close c =
          ground (arith, e) in
        subst (IsSound p []) same (closed-IsSound b c e h)
  ]
