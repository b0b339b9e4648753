-- ===== src/Tests/Lifetimes.antt =====
-- A connection that is closed before anything was written, and one direction of it.
use muti.Common.{
  ℕ, ◌+◌, ◌≡◌, ◌↔◌, refl, [], ◌∷◌, count, true, false, ok, ◌==◌, if◌then◌else◌, arith,
}
use muti.Connection.Sides.{Side, new_side, called, bumped, inserted, begun, took, finished, act}
use muti.Connection.Lifetime.{
  Lifetime, create_connection, Happening, on_writes, close_called, on_close_returned, happen,
  CanHappen, Lives, created, happened,
}
use muti.Connection.Released.{IsUnused, released_iff_IsUnused, nothing_lost}
use muti.Connection.Scheduling.{
  Runs, made, acted, IsQuiet, quiet-empty, rested, Follows, CallsOnly, lost_wake_up,
  released_in_call,
}

-- A write is called for, and the connection is closed.
closed_early : (c : Lifetime) × Lives c
unfolding create_connection new_side happen
closed_early = (
  _,
  happened on_close_returned
      (happened close_called (happened (on_writes (called 5)) created (tt, refl) refl) refl refl)
      refl refl,
)

released_iff_IsUnused_example :
    (closed_early.0.ref ≡ 0)
    ↔ ((closed_early.0.owned ≡ 0) × IsUnused closed_early.0.reads × IsUnused closed_early.0.writes)
released_iff_IsUnused_example = released_iff_IsUnused closed_early.1

nothing_lost_example :
    ((h : Happening)
      → CanHappen h closed_early.0
      → (c' : Lifetime) × (happen h closed_early.0 ≡ ok c'))
    × (closed_early.0.on_close_calls ≡ (if closed_early.0.is_closed == 0 then 0 else 1))
    × ((id : ℕ)
        → count id closed_early.0.reads.issued
          ≡ count id closed_early.0.reads.jobs
            + count id closed_early.0.reads.taken
            + count id closed_early.0.reads.called_back)
    × ((id : ℕ)
        → count id closed_early.0.writes.issued
          ≡ count id closed_early.0.writes.jobs
            + count id closed_early.0.writes.taken
            + count id closed_early.0.writes.called_back)
nothing_lost_example = nothing_lost closed_early.1

-- One write goes all the way.
one_write : (s : Side) × Runs true s
unfolding new_side act
one_write = (
  _,
  acted (finished 1)
      (acted took
        (acted begun
          (acted inserted
            (acted bumped (acted (called 5) made tt (λ f g. absurd cc) refl) (omega arith)
              (λ f g. refl) refl)
            (omega arith) (λ f g. absurd cc) refl)
          (omega arith, refl) (λ f g. absurd cc) refl)
        refl (λ f g. absurd cc) refl)
      (refl, omega arith) (λ f g. absurd cc) refl,
)

one_write-IsQuiet : IsQuiet one_write.0 × (one_write.0.blocked ≡ false)
unfolding one_write new_side act
one_write-IsQuiet = (
  record { adding = refl; inserting = refl; returning = refl; pooled = refl; runner = refl },
  refl,
)

quiet-empty_example : one_write.0.jobs ≡ []
quiet-empty_example = quiet-empty one_write.1 one_write-IsQuiet.0 one_write-IsQuiet.1

fresh-Runs : Runs false (rested [] [])
unfolding new_side
fresh-Runs = made

lost_wake_up_example :
    (s : Side) × Follows (rested [] []) s
    × Runs false s
    × IsQuiet s
    × (s.blocked ≡ false)
    × (s.jobs ≡ 3 ∷ [])
    × (s.issued ≡ 3 ∷ 2 ∷ 1 ∷ [])
    × (s.called_back ≡ 1 ∷ 2 ∷ [])
lost_wake_up_example = lost_wake_up [] [] fresh-Runs 1 2 3

released_in_call_example :
    (c : Lifetime) × CallsOnly c
    × Lives c
    × (c.ref ≡ 0)
    × (c.writes.adding ≡ 1)
    × (c.writes.issued ≡ 8 ∷ 7 ∷ [])
released_in_call_example = released_in_call 7 8
