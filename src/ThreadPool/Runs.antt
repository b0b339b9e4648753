-- ===== src/ThreadPool/Runs.antt =====
-- The runs of a pool of corecode/util/ThreadPool1.c: inserts and a stop at any time, between the
-- steps of the thread, whose wait may also end without a signal. What the pool accepted and what it
-- executed is recorded beside it.
use muti.Common.{
  count, count-append, ℕ, suc, ◌+◌, ◌≡◌, refl, Bool, true, false, List, [], ◌∷◌, ◌++◌, arith,
}
use muti.ThreadPool.{
  ThreadPool, notified, stop, looping, waiting, woken, batch, ended, init_thread_pool1, insert_tail,
  insert_head, take_work, do_thread, request_stop,
}

pub record Run : Type 0 where
  pub pool : ThreadPool
  pub accepted : List ℕ
  pub done : List ℕ
  -- how many jobs were accepted at the head
  pub heads : ℕ

abbrev pub initial : Run
initial = record { pool = init_thread_pool1; accepted = []; done = []; heads = 0 }

-- The return value of an insert decides whether the caller counts on its job.
unfoldable pub after_tail : Run → ℕ → Bool × ThreadPool → Run
after_tail s job (true, tp) = record s { pool = tp; accepted = s.accepted ++ job ∷ [] }
after_tail s job (false, tp) = record s { pool = tp }

unfoldable pub after_head : Run → ℕ → Bool × ThreadPool → Run
after_head s job (true, tp) = record s {
  pool = tp;
  accepted = s.accepted ++ job ∷ [];
  heads = suc s.heads;
}
after_head s job (false, tp) = record s { pool = tp }

-- What can happen; `halt` is `destroy` up to its join, and `stray` a wait that ends without a signal.
pub data Step : Run → Run → Type 0 where
  tail : (s : Run) (job : ℕ) → Step s (after_tail s job (insert_tail s.pool job))
  head : (s : Run) (job : ℕ) → Step s (after_head s job (insert_head s.pool job))
  halt : (s : Run) → Step s (record s { pool = request_stop s.pool })
  round : (s : Run) → s.pool.place ≡ looping → Step s (record s { pool = do_thread s.pool })
  stray :
      (s : Run)
      → s.pool.place ≡ waiting
      → Step s (record s { pool = record s.pool { place = woken } })
  wake : (s : Run) → s.pool.place ≡ woken → Step s (record s { pool = take_work s.pool })
  run :
      (s : Run) (job : ℕ) (rest : List ℕ)
      → s.pool.place ≡ batch
      → s.pool.runing_head ≡ job ∷ rest
      → Step s (record s { pool = record s.pool { runing_head = rest }; done = s.done ++ job ∷ [] })
  next :
      (s : Run)
      → s.pool.place ≡ batch
      → s.pool.runing_head ≡ []
      → Step s (record s { pool = record s.pool { place = looping } })

pub data Reach (s : Run) : Run → Type 0 where
  here : Reach s s
  more : {t u : Run} → Reach s t → Step t u → Reach s u

-- Each accepted job is executed, or in the running list, or in the work list, as often as it was
-- accepted.
abbrev pub Keeps : Run → ℕ → Type 0
Keeps s j =
    count j s.accepted ≡ count j s.done + count j s.pool.runing_head + count j s.pool.work_head

Step-Keeps : {s t : Run} → Step s t → (j : ℕ) → Keeps s j → Keeps t j
unfolding insert_tail insert_head do_thread take_work request_stop after_tail after_head
Step-Keeps (tail s job) j h =
    ground (arith, count-append j s.accepted (job ∷ []), count-append j s.pool.work_head (job ∷ []))
Step-Keeps (head s job) j h = ground (arith, count-append j s.accepted (job ∷ []))
Step-Keeps (halt s) j h = h
Step-Keeps (round s e) j h = ground (arith, count-append j s.pool.runing_head s.pool.work_head)
Step-Keeps (stray s e) j h = h
Step-Keeps (wake s e) j h = ground (arith, count-append j s.pool.runing_head s.pool.work_head)
Step-Keeps (run s job rest e f) j h = ground (arith, count-append j s.done (job ∷ []))
Step-Keeps (next s e f) j h = h

-- In every run of a pool each job is executed, or in the running list, or in the work list, in all
-- as often as the pool accepted it: no job is lost, and none is executed more often than it was
-- accepted.
pub reachable-Keeps : {s : Run} → Reach initial s → (j : ℕ) → Keeps s j
unfolding init_thread_pool1
reachable-Keeps here j = refl
reachable-Keeps (more r st) j = Step-Keeps st j (reachable-Keeps r j)

-- Between batches nothing is left in the running list, a pool that stops has signalled, and a thread
-- that ended left no work.
abbrev pub Settled : ThreadPool → Type 0
Settled tp = elim tp.place [
  | looping ↦ tp.runing_head ≡ []
  | waiting ↦ (tp.runing_head ≡ []) × (tp.state ≡ stop → ⊥)
  | woken ↦ tp.runing_head ≡ []
  | batch ↦ Unit
  | ended ↦ (tp.runing_head ≡ []) × (tp.work_head ≡ []) × (tp.state ≡ stop)
]

tail-Settled :
    (s : Run) (job : ℕ) → Settled s.pool → Settled (after_tail s job (insert_tail s.pool job)).pool
unfolding insert_tail after_tail notified
tail-Settled s job h = elim s.pool.place [
  | looping ↦ ground arith
  | waiting ↦ ground arith
  | woken ↦ ground arith
  | batch ↦ ground arith
  | ended ↦ ground arith
]

head-Settled :
    (s : Run) (job : ℕ) → Settled s.pool → Settled (after_head s job (insert_head s.pool job)).pool
unfolding insert_head after_head notified
head-Settled s job h = elim s.pool.place [
  | looping ↦ ground arith
  | waiting ↦ ground arith
  | woken ↦ ground arith
  | batch ↦ ground arith
  | ended ↦ ground arith
]

halt-Settled : (s : Run) → Settled s.pool → Settled (request_stop s.pool)
unfolding request_stop notified
halt-Settled s h = elim s.pool.place [
  | looping ↦ ground arith
  | waiting ↦ ground arith
  | woken ↦ ground arith
  | batch ↦ ground arith
  | ended ↦ ground arith
]

Step-Settled : {s t : Run} → Step s t → Settled s.pool → Settled t.pool
unfolding do_thread take_work
Step-Settled (tail s job) h = tail-Settled s job h
Step-Settled (head s job) h = head-Settled s job h
Step-Settled (halt s) h = halt-Settled s h
Step-Settled (round s e) h = ground arith
Step-Settled (stray s e) h = ground arith
Step-Settled (wake s e) h = ground arith
Step-Settled (run s job rest e f) h = ground arith
Step-Settled (next s e f) h = ground arith

pub reachable-Settled : {s : Run} → Reach initial s → Settled s.pool
unfolding init_thread_pool1
reachable-Settled here = refl
reachable-Settled (more r st) = Step-Settled st (reachable-Settled r)

-- When the thread of a pool has ended, it has executed each job as often as the pool accepted it.
pub ended-executed :
    {s : Run}
    → Reach initial s
    → s.pool.place ≡ ended
    → (j : ℕ) → count j s.accepted ≡ count j s.done
ended-executed {s} r e j = ground (arith, reachable-Settled r, reachable-Keeps r j)
