-- ===== src/Server/Buffers/Sound.antt =====
-- Who holds the read buffers, and how the freeing of one keeps that.
use muti.Common.{
  set_reference, ℕ, suc, ◌+◌, ◌-◌, ◌/◌, ◌<◌, ◌≤◌, ◌≡◌, refl, sym, ◌∙◌, List, ◌∷◌, inl, inr, ◌≢◌,
  count, none, some, ok, ◌==◌, arith, Bool-cases, Option-cases,
}
use muti.Server.{ServerParam, SConnection, read_done, free_read_buffer}
use muti.Common.Live.{live, refers, live-set-positive, live-set-zero}

module _ (p : ServerParam) where
  -- Each buffer has as many references as there are holders: those of the running callback, the
  -- requests, the connection's read and the place for the parked buffer.
  pub record IsSound (held : List ℕ) (c : SConnection) : Type 0 where
    pub references :
        (k : ℕ)
        → c.reference k
          ≡ count k held + count k c.inflight + refers c.reading k + refers c.to_read_buf k
    pub fresh : (k : ℕ) → c.next_buffer ≤ k → c.reference k ≡ 0
    pub counter : c.read_counter ≡ live c.next_buffer c.reference
    pub limit : c.read_counter ≤ p.max_read_buffer_counter
    pub reads :
        (b : ℕ)
        → c.reading ≡ some b
        → (c.to_read_buf ≡ none) × (c.read_counter < p.max_read_buffer_counter)
    pub parks :
        (b : ℕ)
        → c.to_read_buf ≡ some b
        → (c.reference b ≡ 1) × (p.max_read_buffer_counter / 2 < c.read_counter)

  -- While a buffer is parked no read runs.
  pub IsSound-idle :
      (held : List ℕ) (c : SConnection)
      → IsSound held c
      → (k : ℕ) → c.to_read_buf ≡ some k
      → c.reading ≡ none
  IsSound-idle held c h k e = elim (Option-cases c.reading) [
    | inl none_read ↦ none_read
    | inr (j, f) ↦ let r = h.reads j f in absurd cc
  ]

  pub free-shared :
      (b : ℕ) (c : SConnection)
      → 1 < c.reference b
      → free_read_buffer p b c
        ≡ ok (record c { reference = set_reference c.reference b (c.reference b - 1) })
  unfolding free_read_buffer
  free-shared b c h = ground arith

  free-last :
      (b : ℕ) (c : SConnection)
      → c.reference b ≡ 1
      → free_read_buffer p b c
        ≡ ok (read_done p (record c { reference = set_reference c.reference b 0 }))
  unfolding free_read_buffer
  free-last b c h = ground (arith, h)

  shared-IsSound :
      (b : ℕ) (held : List ℕ) (c : SConnection)
      → 1 < c.reference b
      → IsSound (b ∷ held) c
      → IsSound held (record c { reference = set_reference c.reference b (c.reference b - 1) })
  unfolding set_reference
  shared-IsSound b held c more h = record {
    references = λ k. ground (arith, h.references k);
    fresh = λ k le. ground (arith, h.fresh k le, h.fresh b);
    counter =
        h.counter
        ∙ sym (
            live-set-positive c.next_buffer b (c.reference b - 1) c.reference
              (ground (arith, h.fresh b)) (omega arith) (omega arith));
    limit = h.limit;
    reads = h.reads;
    parks = λ k e. ground (arith, h.parks k e);
  }

  -- The last reference to a buffer goes.
  module _ (b : ℕ) (held : List ℕ) (c : SConnection) (one : c.reference b ≡ 1)
      (h : IsSound (b ∷ held) c) where
    last-references :
        (k : ℕ)
        → set_reference c.reference b 0 k
          ≡ count k held + count k c.inflight + refers c.reading k + refers c.to_read_buf k
    unfolding set_reference
    last-references k = ground (arith, h.references k, one)

    last-fresh : (k : ℕ) → c.next_buffer ≤ k → set_reference c.reference b 0 k ≡ 0
    unfolding set_reference
    last-fresh k le = ground (arith, h.fresh k le)

    last-counter : c.read_counter ≡ suc (live c.next_buffer (set_reference c.reference b 0))
    last-counter =
        h.counter
        ∙ sym (live-set-zero c.next_buffer b c.reference (ground (arith, h.fresh b)) (omega arith))

    last-unparked : (k : ℕ) → c.to_read_buf ≡ some k → k ≢ b
    last-unparked k e f = ground (arith, h.references b, h.parks k e, one)

    kept-IsSound :
        c.read_counter - 1 ≢ p.max_read_buffer_counter / 2
        → IsSound held (record c {
          reference = set_reference c.reference b 0;
          read_counter = c.read_counter - 1;
        })
    unfolding set_reference
    kept-IsSound off = record {
      references = last-references;
      fresh = last-fresh;
      counter = omega (arith, last-counter);
      limit = omega (arith, h.limit);
      reads = λ k e. let r = h.reads k e in (r.0, omega (arith, r.1));
      parks = λ k e.
          let r = h.parks k e in
          let ne = last-unparked k e in (ground arith, omega (arith, r.1, off, last-counter));
    }

    emptied-IsSound :
        c.to_read_buf ≡ none
        → IsSound held (record c {
          reference = set_reference c.reference b 0;
          read_counter = c.read_counter - 1;
        })
    emptied-IsSound e = record {
      references = last-references;
      fresh = last-fresh;
      counter = omega (arith, last-counter);
      limit = omega (arith, h.limit);
      reads = λ k f. let r = h.reads k f in (r.0, omega (arith, r.1));
      parks = λ k f. absurd cc;
    }

    resumed-IsSound :
        (k : ℕ)
        → 2 ≤ p.max_read_buffer_counter
        → c.to_read_buf ≡ some k
        → c.read_counter - 1 ≡ p.max_read_buffer_counter / 2
        → IsSound held (record c {
          reference = set_reference c.reference b 0;
          read_counter = c.read_counter - 1;
          reading = some k;
          to_read_buf = none;
        })
    resumed-IsSound k two e half = record {
      references = λ j. ground (arith, last-references j, IsSound-idle (b ∷ held) c h k e, e);
      fresh = last-fresh;
      counter = omega (arith, last-counter);
      limit = omega (arith, h.limit);
      reads = λ j f. (refl, omega (arith, half, two, last-counter));
      parks = λ j f. absurd cc;
    }

    last-IsSound :
        2 ≤ p.max_read_buffer_counter
        → IsSound held (read_done p (record c { reference = set_reference c.reference b 0 }))
    unfolding read_done
    last-IsSound two = elim (Bool-cases (c.read_counter - 1 == p.max_read_buffer_counter / 2)) [
      | inr off ↦ rw off (kept-IsSound (ground arith))
      | inl half ↦ elim (Option-cases c.to_read_buf) [
        | inl e ↦ rw (half, e) (emptied-IsSound e)
        | inr (k, e) ↦ rw (half, e) (resumed-IsSound k two e (ground arith))
      ]
    ]

  -- A reference that the callback holds can be given up: the buffer was not freed before.
  pub free_read_buffer-IsSound :
      2 ≤ p.max_read_buffer_counter
      → (b : ℕ) (held : List ℕ) (c : SConnection) → IsSound (b ∷ held) c
      → (c' : SConnection) × (free_read_buffer p b c ≡ ok c') × IsSound held c'
  free_read_buffer-IsSound two b held c h =
      let some_reference : 0 < c.reference b = ground (arith, h.references b) in
      elim (Bool-cases (c.reference b == 1)) [
        | inl one ↦
            let e : c.reference b ≡ 1 = ground arith in
            (_, free-last b c e, last-IsSound b held c e h two)
        | inr many ↦
            let more : 1 < c.reference b = ground arith in
            (_, free-shared b c more, shared-IsSound b held c more h)
      ]
