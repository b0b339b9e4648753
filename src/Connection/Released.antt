-- ===== src/Connection/Released.antt =====
-- When the count of a connection's references comes to 0, and what can happen before.
use muti.Common.{
  ℕ, ◌+◌, ◌≡◌, ◌↔◌, refl, List, [], ◌∷◌, length, count, ok, ◌==◌, if◌then◌else◌, arith,
}
use muti.Connection.Sides.{Runner, idle, starting, running, Side}
use muti.Connection.Lifetime.{Lifetime, Happening, happen, CanHappen, Lives, busy, weight}
use muti.Connection.Alive.{happen-IsAlive, lives-IsAlive}

-- A side that no IO context waits on and no job of the pool works on.
abbrev pub IsUnused : Side → Type 0
IsUnused s = (s.jobs ≡ []) × (s.taken ≡ []) × (s.pooled ≡ 0) × (s.runner ≡ idle)

empty_list : (xs : List ℕ) → length xs ≡ 0 → xs ≡ []
empty_list [] e = refl
empty_list (x ∷ xs) e = absurd (omega arith)

not_busy : (r : Runner) → busy r ≡ 0 → r ≡ idle
not_busy idle e = refl
not_busy starting e = absurd (omega arith)
not_busy running e = absurd (omega arith)

weight-IsUnused : (s : Side) → weight s ≡ 0 → IsUnused s
weight-IsUnused s e = (
  empty_list s.jobs (omega arith),
  empty_list s.taken (omega arith),
  omega arith,
  not_busy s.runner (omega arith),
)

-- After anything that can happen to a connection, in any order, where it is used by calls and by epoll
-- only until `onClose` has returned: its count of references comes to 0 just when `onClose` has
-- returned, no IO context waits or is worked on, and no job of it is in the pool or runs.
pub released_iff_IsUnused :
    {c : Lifetime} → Lives c → (c.ref ≡ 0) ↔ ((c.owned ≡ 0) × IsUnused c.reads × IsUnused c.writes)
released_iff_IsUnused {c} r =
    let v = lives-IsAlive r in
    (
      λ e. (
        omega (arith, v.ref, e),
        weight-IsUnused c.reads (omega (arith, v.ref, e)),
        weight-IsUnused c.writes (omega (arith, v.ref, e)),
      ),
      λ u. ground (arith, v.ref, u.0, u.1, u.2),
    )

-- After anything that can happen to a connection, in any order, where it is used by calls and by epoll
-- only until `onClose` has returned: what can happen next passes the assert on the count of
-- references; `onClose` was called once if the connection was closed, and else not; and each read and
-- each write that was called for waits, is worked on, or was called back, as often as it was called for.
pub nothing_lost :
    {c : Lifetime}
    → Lives c
    → ((h : Happening) → CanHappen h c → (c' : Lifetime) × (happen h c ≡ ok c'))
      × (c.on_close_calls ≡ (if c.is_closed == 0 then 0 else 1))
      × ((id : ℕ)
          → count id c.reads.issued
            ≡ count id c.reads.jobs + count id c.reads.taken + count id c.reads.called_back)
      × ((id : ℕ)
          → count id c.writes.issued
            ≡ count id c.writes.jobs + count id c.writes.taken + count id c.writes.called_back)
nothing_lost {c} r =
    let v = lives-IsAlive r in
    (
      λ h e. let (c', run, alive) = happen-IsAlive h c e v in (c', run),
      ground (arith, v.closed, v.once),
      v.reads.once,
      v.writes.once,
    )
