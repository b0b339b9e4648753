-- ===== src/ThreadPool.antt =====
-- corecode/util/ThreadPool1.c: the pool with one thread. A job is a number that stands for its
-- pointer. Every function holds the pool's lock from its first to its last access, so each is one
-- step; the thread gives the lock up while it waits and while it runs a batch.
pub mod Runs
pub mod Drain
pub mod Choice
use muti.Common.{ℕ, Bool, true, false, List, [], ◌∷◌, ◌++◌}

pub data ThreadPoolState : Type 0 where
  init : ThreadPoolState
  start : ThreadPoolState
  stop : ThreadPoolState

-- Where the thread is in `threadPoolDoThread`: at the head of its loop, in `pthread_cond_wait`, in
-- `do_batch`, or past the loop. `woken` is in the wait too, once the condition was signalled, or the
-- wait ends without a signal, as POSIX allows.
pub data Place : Type 0 where
  looping : Place
  waiting : Place
  woken : Place
  batch : Place
  ended : Place

-- `ThreadPoolPrivate`
pub record ThreadPool : Type 0 where
  pub state : ThreadPoolState
  pub work_head : List ℕ
  pub runing_head : List ℕ
  pub place : Place

-- The pool that `initThreadPool1` returns: its thread has started.
unfoldable pub init_thread_pool1 : ThreadPool
init_thread_pool1 = record { state = start; work_head = []; runing_head = []; place = looping }

-- `pthread_cond_signal`: a thread that does not wait does not notice.
unfoldable pub notified : Place → Place
notified waiting = woken
notified place = place

unfoldable pub signal : ThreadPool → ThreadPool
unfolding notified
signal tp = record tp { place = notified tp.place }

-- Whether the job is accepted, and the pool afterwards: a pool that stops refuses it.
unfoldable pub insert_tail : ThreadPool → ℕ → Bool × ThreadPool
unfolding signal
insert_tail tp job = elim tp.state [
  | stop ↦ (false, tp)
  | _ ↦ (true, signal (record tp { work_head = tp.work_head ++ job ∷ [] }))
]

unfoldable pub insert_head : ThreadPool → ℕ → Bool × ThreadPool
unfolding signal
insert_head tp job = elim tp.state [
  | stop ↦ (false, tp)
  | _ ↦ (true, signal (record tp { work_head = job ∷ tp.work_head }))
]

-- `listJoinTailInit` of the work to the running list
unfoldable pub take_work : ThreadPool → ThreadPool
take_work tp = record tp {
  work_head = [];
  runing_head = tp.runing_head ++ tp.work_head;
  place = batch;
}

-- One round of the loop, up to the batch or to the wait.
unfoldable pub do_thread : ThreadPool → ThreadPool
unfolding take_work
do_thread tp = elim tp.work_head [
  | [] ↦ elim tp.state [ stop ↦ record tp { place = ended } | _ ↦ record tp { place = waiting } ]
  | _ ∷ _ ↦ take_work tp
]

-- `destroy` up to its join
unfoldable pub request_stop : ThreadPool → ThreadPool
unfolding signal
request_stop tp = signal (record tp { state = stop })
