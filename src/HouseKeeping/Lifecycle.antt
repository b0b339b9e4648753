-- ===== src/HouseKeeping/Lifecycle.antt =====
-- A worker of corecode/util/HouseKeeping.c through the ticks of the thread and the callbacks of its
-- queued jobs, in any order: the assert in the callback.
use muti.Common.{
  ℕ, zero, suc, ◌-◌, ◌<◌, ◌^◌, ◌≡◌, ap, List, [], ◌∷◌, some, get_elem?, if◌then◌else◌, ok, arith,
}
use muti.HouseKeeping.{waiting, busy, Worker, tick_worker, tick, do_callback}
use muti.HouseKeeping.Ticks.{IsWorker}

-- A tick of the list is a tick of each worker.
pub get_elem?-tick :
    (workers : List Worker) (i : ℕ) (w : Worker)
    → get_elem? workers i ≡ some w
    → get_elem? (tick workers).0 i ≡ some (tick_worker w).0
unfolding tick
get_elem?-tick [] i w h = cc
get_elem?-tick (v ∷ workers) zero w h =
    let e : v ≡ w = ground arith in ap (λ t. some (tick_worker t).0) e
get_elem?-tick (v ∷ workers) (suc i) w h = get_elem?-tick workers i w h

-- The list of workers, and for the worker at one place in it how many of its jobs were queued whose
-- callback has not come.
pub record Watched : Type 0 where
  pub worker : Worker
  pub jobs : ℕ

pub data Step : Watched → Watched → Type 0 where
  ticked :
      (s : Watched)
      → Step s (record {
        worker = (tick_worker s.worker).0;
        jobs = if (tick_worker s.worker).1 then suc s.jobs else s.jobs;
      })
  called :
      (s : Watched) (w : Worker)
      → 0 < s.jobs
      → do_callback s.worker ≡ ok w
      → Step s (record { worker = w; jobs = s.jobs - 1 })

pub data Reach (s : Watched) : Watched → Type 0 where
  here : Reach s s
  more : {t u : Watched} → Reach s t → Step t u → Reach s u

-- The worker that `houseKeepingAddWorker` makes.
abbrev pub added : ℕ → ℕ → Watched
added id interval = record {
  worker = record { id = id; status = waiting; interval = interval; counter = interval };
  jobs = 0;
}

abbrev pub IsWatched : Watched → Type 0
IsWatched s = IsWorker s.worker × (s.jobs ≡ (elim s.worker.status [ waiting ↦ 0 | busy ↦ 1 ]))

ticked-IsWatched :
    (s : Watched)
    → IsWatched s
    → IsWatched (record {
      worker = (tick_worker s.worker).0;
      jobs = if (tick_worker s.worker).1 then suc s.jobs else s.jobs;
    })
unfolding tick_worker
ticked-IsWatched s h = ground arith

called-IsWatched :
    (s : Watched) (w : Worker)
    → IsWatched s
    → do_callback s.worker ≡ ok w
    → IsWatched (record { worker = w; jobs = s.jobs - 1 })
unfolding do_callback
called-IsWatched s w h e = ground arith

Step-IsWatched : {s t : Watched} → Step s t → IsWatched s → IsWatched t
Step-IsWatched (ticked s) h = ticked-IsWatched s h
Step-IsWatched (called s w pos e) h = called-IsWatched s w h e

pub reachable-IsWatched :
    (id interval : ℕ) {s : Watched}
    → 0 < interval
    → interval < 2 ^ 31
    → Reach (added id interval) s
    → IsWatched s
reachable-IsWatched id interval pos small here = ground arith
reachable-IsWatched id interval pos small (more r st) =
    Step-IsWatched st (reachable-IsWatched id interval pos small r)

-- After any ticks and callbacks a worker that was added with a positive interval has at most one job
-- in the pool, and as long as it has one its callback passes the assert: the worker then waits for
-- its interval.
pub callback_asserts_hold :
    (id interval : ℕ) {s : Watched}
    → 0 < interval
    → interval < 2 ^ 31
    → Reach (added id interval) s
    → 0 < s.jobs
    → (s.jobs ≡ 1)
      × (do_callback s.worker
          ≡ ok (record s.worker { counter = s.worker.interval; status = waiting }))
unfolding do_callback
callback_asserts_hold id interval pos small r some_job =
    ground (arith, reachable-IsWatched id interval pos small r)
