-- ===== src/Connection/Scheduling.antt =====
-- Whether a job of a connection that waits is taken up by a thread of the pool.
use muti.Common.{
  ℕ, zero, suc, ◌+◌, ◌≤◌, ◌<◌, ◌≡◌, ◌⊎◌, refl, subst, List, [], ◌∷◌, ◌++◌, length, drop, Bool, true,
  false, ok, leb, ◌==◌, Bool-cases, inl, inr, arith,
}
use muti.Connection.Sides.{
  Runner, idle, starting, running, Side, new_side, Action, called, polled, bumped, inserted,
  returned, begun, took, finished, act, gains, loses, CanAct, post_jobs,
}
use muti.Connection.Lifetime.{
  Lifetime, Happening, CanHappen, create_connection, on_writes, close_called, on_close_returned,
  happen, io_done, Lives, created, happened,
}

-- The runs of one side. In a calm one no thread adds to the flag between the two changes that another
-- thread makes to it, which found that it was not the first.
pub data Runs (calm : Bool) : Side → Type 0 where
  made : Runs calm new_side
  acted :
      {s s' : Side} (a : Action)
      → Runs calm s
      → CanAct a s
      → (calm ≡ true → a ≡ bumped → s.returning ≡ 0)
      → act a s ≡ s'
      → Runs calm s'
  posted : {s s' : Side} → Runs calm s → post_jobs s ≡ s' → Runs calm s'

-- No thread is in a call, none has the job, and the pool does not have it.
pub record IsQuiet (s : Side) : Type 0 where
  pub adding : s.adding ≡ 0
  pub inserting : s.inserting ≡ 0
  pub returning : s.returning ≡ 0
  pub pooled : s.pooled ≡ 0
  pub runner : s.runner ≡ idle

abbrev waking : Runner → ℕ
waking idle = 0
waking starting = 1
waking running = 0

-- Something is under way that will take the list.
abbrev wakers : Side → ℕ
wakers s = s.adding + s.inserting + s.pooled + waking s.runner

record IsCovered (s : Side) : Type 0 where
  flag : s.flag ≡ s.inserting + s.pooled + s.returning
  covered : (s.jobs ≡ []) ⊎ ((s.blocked ≡ true) ⊎ (0 < wakers s))

new_side-IsCovered : IsCovered new_side
unfolding new_side
new_side-IsCovered = record { flag = refl; covered = inl refl }

drop-all : (n : ℕ) (xs : List ℕ) → length xs ≤ n → drop n xs ≡ []
drop-all zero [] h = refl
drop-all zero (x ∷ xs) h = absurd (omega arith)
drop-all (suc n) [] h = refl
drop-all (suc n) (x ∷ xs) h = drop-all n xs (omega arith)

act-IsCovered :
    (a : Action) (s : Side)
    → CanAct a s
    → (a ≡ bumped → s.returning ≡ 0)
    → IsCovered s
    → IsCovered (act a s)
unfolding act
act-IsCovered (called id) s e calm h = record { flag = h.flag; covered = inr (inr (omega arith)) }
act-IsCovered polled s e calm h = record { flag = h.flag; covered = inr (inr (omega arith)) }
act-IsCovered bumped s e calm h = elim (Bool-cases (s.flag == 0)) [
  | inl first ↦ record {
    flag = ground (arith, first, h.flag);
    covered = inr (inr (ground (arith, first)));
  }
  | inr other ↦ record {
    flag = ground (arith, other, h.flag);
    covered = inr (inr (ground (arith, other, h.flag, calm refl)));
  }
]
act-IsCovered inserted s e calm h = record {
  flag = omega (arith, h.flag, e);
  covered = inr (inr (omega arith));
}
act-IsCovered returned s e calm h = record { flag = omega (arith, h.flag, e); covered = h.covered }
act-IsCovered begun s e calm h = record {
  flag = omega (arith, h.flag, e.0);
  covered = inr (inr (omega arith));
}
act-IsCovered took s e calm h = record { flag = h.flag; covered = inl refl }
act-IsCovered (finished n) s e calm h = elim (Bool-cases (leb (length s.taken) n)) [
  | inr left ↦ record { flag = h.flag; covered = inr (inl (rw left refl)) }
  | inl all ↦
      let gone = drop-all n s.taken (ground (arith, all)) in
      record {
        flag = h.flag;
        covered = elim h.covered [
          | inl none_waits ↦ inl (rw (gone, none_waits) refl)
          | inr (inl was_blocked) ↦ inr (inl (ground (arith, all, was_blocked)))
          | inr (inr some_waker) ↦ inr (inr (ground (arith, some_waker, e.0)))
        ];
      }
]

Runs-IsCovered : {s : Side} → Runs true s → IsCovered s
unfolding post_jobs
Runs-IsCovered made = new_side-IsCovered
Runs-IsCovered (acted {s} {s'} a r e calm same) =
    subst IsCovered same (act-IsCovered a s e (λ f. calm refl f) (Runs-IsCovered r))
Runs-IsCovered (posted {s} {s'} r same) =
    let h = Runs-IsCovered r in subst IsCovered same (record { flag = h.flag; covered = inl refl })

-- In a calm run of the reads or of the writes, nothing is left behind: if no thread is in a call, and
-- the pool does not have the job and does not run it, and the last run did not leave jobs because the
-- socket would block, then no job waits.
pub quiet-empty : {s : Side} → Runs true s → IsQuiet s → s.blocked ≡ false → s.jobs ≡ []
quiet-empty {s} r q e = elim (Runs-IsCovered r).covered [
  | inl none_waits ↦ none_waits
  | inr (inl blocked) ↦ absurd cc
  | inr (inr some_waker) ↦ absurd (ground (arith, q.adding, q.inserting, q.pooled, q.runner))
]

-- A side at rest, after some jobs.
abbrev pub rested : List ℕ → List ℕ → Side
rested issued called_back = record {
  jobs = [];
  taken = [];
  runner = idle;
  flag = 0;
  adding = 0;
  inserting = 0;
  returning = 0;
  pooled = 0;
  blocked = false;
  issued = issued;
  called_back = called_back;
}

-- A step of a run that need not be calm.
rushed : {s : Side} (a : Action) → Runs false s → CanAct a s → Runs false (act a s)
rushed a r e = acted a r e (λ f. absurd cc) refl

-- What can follow on a state of one side.
pub data Follows (start : Side) : Side → Type 0 where
  stays : Follows start start
  goes : {s : Side} (a : Action) → Follows start s → CanAct a s → Follows start (act a s)

Follows-Runs : {start s : Side} → Follows start s → Runs false start → Runs false s
Follows-Runs stays r = r
Follows-Runs (goes a f e) r = rushed a (Follows-Runs f r) e

-- From any run of the reads or of the writes that came to rest with no job waiting, the run can go on
-- with three calls, and nothing else that is called for, so that it comes to rest again, not blocked:
-- the first two calls were called back in their order, and the third waits.
pub lost_wake_up :
    (issued called_back : List ℕ)
    → Runs false (rested issued called_back)
    → (i j k : ℕ)
    → (s : Side) × Follows (rested issued called_back) s
      × Runs false s
      × IsQuiet s
      × (s.blocked ≡ false)
      × (s.jobs ≡ k ∷ [])
      × (s.issued ≡ k ∷ j ∷ i ∷ issued)
      × (s.called_back ≡ called_back ++ i ∷ j ∷ [])
unfolding act
lost_wake_up issued called_back r i j k =
    let first =
      goes inserted (goes bumped (goes (called i) stays tt) (omega arith)) (omega arith) in
    let taken =
      goes took
        (goes begun (goes bumped (goes (called j) first tt) (omega arith)) (omega arith, refl))
        refl in
    let late = goes bumped (goes (called k) taken tt) (omega arith) in
    let run =
      goes (finished 2) (goes returned (goes returned late (omega arith)) (omega arith))
        (refl, omega arith) in
    (
      _,
      run,
      Follows-Runs run r,
      record { adding = refl; inserting = refl; returning = refl; pooled = refl; runner = refl },
      refl,
      refl,
      refl,
      refl,
    )

-- The lives of a connection in which epoll does not report that writes can go on: then only threads in
-- `connWrite` are about to add to its flag.
pub data CallsOnly : Lifetime → Type 0 where
  made_new : CallsOnly create_connection
  went :
      {c c' : Lifetime} (h : Happening)
      → CallsOnly c
      → CanHappen h c
      → (h ≡ on_writes polled → ⊥)
      → happen h c ≡ ok c'
      → CallsOnly c'

CallsOnly-Lives : {c : Lifetime} → CallsOnly c → Lives c
CallsOnly-Lives made_new = created
CallsOnly-Lives (went h r e other run) = happened h (CallsOnly-Lives r) e run

-- For any two writes, a connection can come to have no references, and so be freed, after both were
-- called for, while one thread in `connWrite` has not added to the flag of the connection yet: epoll
-- did not report that writes can go on, so that no other thread is about to add to it.
pub released_in_call :
    (i j : ℕ)
    → (c : Lifetime) × CallsOnly c
      × Lives c
      × (c.ref ≡ 0)
      × (c.writes.adding ≡ 1)
      × (c.writes.issued ≡ j ∷ i ∷ [])
unfolding create_connection new_side happen act io_done gains loses post_jobs
released_in_call i j =
    let started =
      went (on_writes begun)
        (went (on_writes inserted)
          (went (on_writes bumped)
            (went (on_writes (called i)) made_new (tt, refl) (λ e. absurd cc) refl)
            (omega arith, tt) (λ e. absurd cc) refl)
          (omega arith, tt) (λ e. absurd cc) refl)
        ((omega arith, refl), tt) (λ e. absurd cc) refl in
    let late =
      went (on_writes took) (went (on_writes (called j)) started (tt, refl) (λ e. absurd cc) refl)
        (refl, tt) (λ e. absurd cc) refl in
    let over = went (on_writes (finished 2)) late ((refl, omega arith), tt) (λ e. absurd cc) refl in
    let closed = went close_called over refl (λ e. absurd cc) refl in
    let run = went on_close_returned closed refl (λ e. absurd cc) refl in
    (_, run, CallsOnly-Lives run, refl, refl, refl)
