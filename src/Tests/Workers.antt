-- ===== src/Tests/Workers.antt =====
-- A worker with an interval of 5 seconds.
use muti.Common.{◌≡◌, ok, arith}
use muti.HouseKeeping.{Worker, waiting, busy, tick_worker, do_callback}
use muti.HouseKeeping.Lifecycle.{Watched, added, Reach, here, more, ticked, callback_asserts_hold}

abbrev keep_alive_worker : Worker
keep_alive_worker = record { id = 1; status = waiting; interval = 5; counter = 5 }

abbrev queued : Watched
queued = record { worker = record { id = 1; status = busy; interval = 2; counter = 0 }; jobs = 1 }

queued_run : Reach (added 1 2) queued
unfolding tick_worker
queued_run = more (more here (ticked (added 1 2))) (ticked _)

callback_asserts_hold_example :
    (queued.jobs ≡ 1)
    × (do_callback queued.worker ≡ ok (record queued.worker { counter = 2; status = waiting }))
callback_asserts_hold_example =
    callback_asserts_hold 1 2 (omega arith) (omega arith) queued_run (omega arith)
