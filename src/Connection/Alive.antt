-- ===== src/Connection/Alive.antt =====
-- What holds of a connection's sides and of its references after anything that can happen to it.
use muti.Common.{
  ℕ, zero, suc, ◌+◌, ◌-◌, ◌≤◌, ◌<◌, ◌≡◌, refl, subst, List, [], ◌∷◌, length, take, drop, count,
  count-append, length-append, true, false, ok, ◌==◌, Bool-cases, inl, inr, arith,
}
use muti.Connection.Sides.{
  Side, new_side, Action, called, polled, bumped, inserted, returned, begun, took, finished, act,
  gains, loses, CanAct, post_jobs,
}
use muti.Connection.Lifetime.{
  Lifetime, create_connection, Happening, on_reads, on_writes, close_called, on_close_returned,
  io_done, happen, CanHappen, Lives, created, happened, weight, IsSide,
}

length-split : (n : ℕ) (xs : List ℕ) → n ≤ length xs → length (drop n xs) + n ≡ length xs
length-split zero xs h = omega arith
length-split (suc n) [] h = absurd (omega arith)
length-split (suc n) (x ∷ xs) h = omega (arith, length-split n xs)

count-split : (id n : ℕ) (xs : List ℕ) → count id (take n xs) + count id (drop n xs) ≡ count id xs
count-split id zero xs = omega arith
count-split id (suc n) [] = refl
count-split id (suc n) (x ∷ xs) = ground (arith, count-split id n xs)

act-weight :
    (a : Action) (s : Side)
    → IsSide s
    → CanAct a s
    → weight (act a s) + loses a ≡ weight s + gains a
unfolding act loses gains
act-weight (called id) s h e = omega (arith, length-append s.jobs (id ∷ []))
act-weight polled s h e = omega arith
act-weight bumped s h e = ground arith
act-weight inserted s h e = omega arith
act-weight returned s h e = omega arith
act-weight begun s h e = ground (arith, e)
act-weight took s h e = ground (arith, h.resting, e)
act-weight (finished n) s h e =
    ground (arith, e, length-append (drop n s.taken) s.jobs, length-split n s.taken)

act-IsSide : (a : Action) (s : Side) → CanAct a s → IsSide s → IsSide (act a s)
unfolding act
act-IsSide (called id) s e h = record {
  flag = h.flag;
  one = h.one;
  resting = h.resting;
  once = λ k. ground (arith, h.once k, count-append k s.jobs (id ∷ []));
}
act-IsSide polled s e h = record { flag = h.flag; one = h.one; resting = h.resting; once = h.once }
act-IsSide bumped s e h = elim (Bool-cases (s.flag == 0)) [
  | inl first ↦ record {
    flag = ground (arith, first, h.flag);
    one = ground (arith, first, h.flag);
    resting = ground (arith, first, h.resting);
    once = λ k. ground (arith, first, h.once k);
  }
  | inr other ↦ record {
    flag = ground (arith, other, h.flag);
    one = ground (arith, other, h.one);
    resting = ground (arith, other, h.resting);
    once = λ k. ground (arith, other, h.once k);
  }
]
act-IsSide inserted s e h = record {
  flag = omega (arith, h.flag, e);
  one = omega (arith, h.one, e);
  resting = h.resting;
  once = h.once;
}
act-IsSide returned s e h = record {
  flag = omega (arith, h.flag, e);
  one = h.one;
  resting = h.resting;
  once = h.once;
}
act-IsSide begun s e h = record {
  flag = omega (arith, h.flag, e.0);
  one = omega (arith, h.one);
  resting = ground (arith, h.resting, e.1);
  once = h.once;
}
act-IsSide took s e h = record {
  flag = h.flag;
  one = h.one;
  resting = inl refl;
  once = λ k. ground (arith, h.once k, h.resting, e);
}
act-IsSide (finished n) s e h = record {
  flag = h.flag;
  one = h.one;
  resting = inr refl;
  once = λ k. ground (
    arith,
    h.once k,
    count-append k (drop n s.taken) s.jobs,
    count-append k s.called_back (take n s.taken),
    count-split k n s.taken,
  );
}

post_jobs-IsSide : (s : Side) → IsSide s → IsSide (post_jobs s)
unfolding post_jobs
post_jobs-IsSide s h = record {
  flag = h.flag;
  one = h.one;
  resting = h.resting;
  once = λ k. omega (arith, h.once k, count-append k s.called_back s.jobs);
}

-- The references to a connection are those of its sides, and its owner's until `onClose` has returned.
pub record IsAlive (c : Lifetime) : Type 0 where
  pub reads : IsSide c.reads
  pub writes : IsSide c.writes
  pub ref : c.ref ≡ c.owned + weight c.reads + weight c.writes
  pub owner : c.owned ≤ 1
  pub closing : (c.in_on_close ≡ true) → c.owned ≡ 1
  pub closed : c.is_closed ≡ 0 → (c.owned ≡ 1) × (c.on_close_calls ≡ 0) × (c.in_on_close ≡ false)
  pub once : 0 < c.is_closed → c.on_close_calls ≡ 1
  pub open_or_closing : 0 < c.is_closed → c.in_on_close ≡ false → c.owned ≡ 0

io_done-ok : (n : ℕ) (c : Lifetime) → n ≤ c.ref → io_done n c ≡ ok (record c { ref = c.ref - n })
unfolding io_done
io_done-ok n c h = ground arith

pub happen-IsAlive :
    (h : Happening) (c : Lifetime)
    → CanHappen h c
    → IsAlive c
    → (c' : Lifetime) × (happen h c ≡ ok c') × IsAlive c'
unfolding happen
happen-IsAlive (on_reads a) c (e, o) v =
    let w = act-weight a c.reads v.reads e in
    let moved = record c { reads = act a c.reads; ref = c.ref + gains a } in
    (
      _,
      io_done-ok (loses a) moved (omega (arith, w, v.ref)),
      record {
        reads = act-IsSide a c.reads e v.reads;
        writes = v.writes;
        ref = omega (arith, w, v.ref);
        owner = v.owner;
        closing = v.closing;
        closed = v.closed;
        once = v.once;
        open_or_closing = v.open_or_closing;
      },
    )
happen-IsAlive (on_writes a) c (e, o) v =
    let w = act-weight a c.writes v.writes e in
    let moved = record c { writes = act a c.writes; ref = c.ref + gains a } in
    (
      _,
      io_done-ok (loses a) moved (omega (arith, w, v.ref)),
      record {
        reads = v.reads;
        writes = act-IsSide a c.writes e v.writes;
        ref = omega (arith, w, v.ref);
        owner = v.owner;
        closing = v.closing;
        closed = v.closed;
        once = v.once;
        open_or_closing = v.open_or_closing;
      },
    )
happen-IsAlive close_called c e v = elim (Bool-cases (c.is_closed == 0)) [
  | inr again ↦ (
    record c { is_closed = c.is_closed + 1 },
    ground (arith, again),
    record {
      reads = v.reads;
      writes = v.writes;
      ref = v.ref;
      owner = v.owner;
      closing = v.closing;
      closed = λ f. absurd (omega (arith, f));
      once = λ f. v.once (ground (arith, again));
      open_or_closing = λ f. v.open_or_closing (ground (arith, again));
    },
  )
  | inl first ↦
      let zero_closed : c.is_closed ≡ 0 = ground arith in
      let lost = length c.reads.jobs + length c.writes.jobs in
      let closed = record c {
        reads = post_jobs c.reads;
        writes = post_jobs c.writes;
        is_closed = c.is_closed + 1;
        in_on_close = true;
        on_close_calls = c.on_close_calls + 1;
      } in
      (
        record closed { ref = c.ref - lost },
        rw first (io_done-ok lost closed (omega (arith, v.ref))),
        record {
          reads = post_jobs-IsSide c.reads v.reads;
          writes = post_jobs-IsSide c.writes v.writes;
          ref = omega (arith, v.ref, e);
          owner = v.owner;
          closing = λ f. e;
          closed = λ f. absurd (omega (arith, f));
          once = λ f. omega (arith, (v.closed zero_closed).1);
          open_or_closing = λ f g. absurd cc;
        },
      )
]
happen-IsAlive on_close_returned c e v =
    let closed = record c { in_on_close = false; owned = c.owned - 1 } in
    let one = v.closing e in
    (
      record closed { ref = c.ref - 1 },
      io_done-ok 1 closed (omega (arith, v.ref, one)),
      record {
        reads = v.reads;
        writes = v.writes;
        ref = omega (arith, v.ref, one);
        owner = omega (arith, one);
        closing = λ f. absurd cc;
        closed = λ f. let off = (v.closed f).2 in absurd cc;
        once = v.once;
        open_or_closing = λ f g. omega (arith, one);
      },
    )

pub lives-IsAlive : {c : Lifetime} → Lives c → IsAlive c
unfolding create_connection new_side
lives-IsAlive created =
    let new : IsSide new_side = record {
      flag = refl;
      one = omega arith;
      resting = inr refl;
      once = λ k. refl;
    } in
    record {
      reads = new;
      writes = new;
      ref = refl;
      owner = omega arith;
      closing = λ f. refl;
      closed = λ f. (refl, refl, refl);
      once = λ f. absurd (omega (arith, f));
      open_or_closing = λ f g. absurd (omega (arith, f));
    }
lives-IsAlive (happened {c} {c'} h r e run) =
    let (c₁, run₁, alive) = happen-IsAlive h c e (lives-IsAlive r) in
    let same : c₁ ≡ c' = cc in subst IsAlive same alive
