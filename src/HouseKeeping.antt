-- ===== src/HouseKeeping.antt =====
-- corecode/util/HouseKeeping.c: workers that a thread queues to a thread pool every `interval`
-- seconds. A worker's id stands for its pointer. The thread holds the lock of the list for the whole
-- of a tick, so that a tick is one step.
pub mod Ticks
pub mod Lifecycle
use muti.Common.{
  ℕ, zero, suc, ◌+◌, ◌-◌, ◌%◌, ◌^◌, Bool, true, false, List, [], ◌∷◌, ◌++◌, Outcome, ok, aborted,
  ◌==◌, if◌then◌else◌,
}

-- `HouseKeepingWorkerStatus`
pub data WorkerStatus : Type 0 where
  waiting : WorkerStatus
  busy : WorkerStatus

-- `HouseKeepingWorker`; `interval` and `counter` are ints, as their bit patterns.
pub record Worker : Type 0 where
  pub id : ℕ
  pub status : WorkerStatus
  pub interval : ℕ
  pub counter : ℕ

-- `houseKeepingAddWorker`: the worker at the front of the list
unfoldable pub add_worker : List Worker → ℕ → ℕ → List Worker
add_worker workers id interval =
    record { id = id; status = waiting; interval = interval; counter = interval } ∷ workers

-- The body of the thread's loop over the list, for one worker: what the worker becomes, and whether
-- its job is queued.
unfoldable pub tick_worker : Worker → Worker × Bool
tick_worker w = elim w.status [
  | busy ↦ (w, false)
  | waiting ↦
      let left = (w.counter + 2 ^ 32 - 1) % 2 ^ 32 in
      if left == 0
      then (record w { status = busy; counter = left }, true)
      else (record w { counter = left }, false)
]

-- One tick of `houseKeepingWorkerThread`, with the ids of the jobs that it queues, in order.
unfoldable pub tick : List Worker → List Worker × List ℕ
unfolding tick_worker
tick [] = ([], [])
tick (w ∷ workers) =
    let rest = tick workers in
    let (w', queued) = tick_worker w in (w' ∷ rest.0, if queued then w.id ∷ rest.1 else rest.1)

-- `houseKeepingWorkerDoCallback`, which the function of a worker calls when its work is done
unfoldable pub do_callback : Worker → Outcome Worker
do_callback w = elim w.status [
  | busy ↦
      if w.counter == 0 then ok (record w { counter = w.interval; status = waiting }) else aborted
  | waiting ↦ aborted
]
