-- ===== src/Tests/Pools.antt =====
-- Runs of a thread pool: a job is inserted, the thread executes it, and the pool is stopped.
use muti.Common.{count, ◌≡◌, refl, [], ◌∷◌, ◌++◌}
use muti.ThreadPool.{
  start, stop, looping, batch, ended, init_thread_pool1, insert_tail, take_work, do_thread,
  request_stop,
}
use muti.ThreadPool.Runs.{
  Run, initial, after_tail, tail, halt, round, run, next, Reach, here, more, ended-executed,
}
use muti.ThreadPool.Drain.{executed_in_order, OwnReach, stopped_ends}
use muti.ThreadPool.Choice.{ThreadPool2}

-- Two jobs wait.
abbrev two_jobs : Run
two_jobs = record {
  pool = record { state = start; work_head = 5 ∷ 6 ∷ []; runing_head = []; place = looping };
  accepted = 5 ∷ 6 ∷ [];
  done = [];
  heads = 0;
}

two_jobs_run : Reach initial two_jobs
unfolding init_thread_pool1 insert_tail after_tail
two_jobs_run = more (more here (tail initial 5)) (tail _ 6)

-- The first is done.
abbrev one_done : Run
one_done = record {
  pool = record { state = start; work_head = []; runing_head = 6 ∷ []; place = batch };
  accepted = 5 ∷ 6 ∷ [];
  done = 5 ∷ [];
  heads = 0;
}

one_done_run : Reach initial one_done
unfolding do_thread take_work
one_done_run = more (more two_jobs_run (round two_jobs refl)) (run _ 5 (6 ∷ []) refl refl)

executed_in_order_example :
    one_done.accepted ≡ one_done.done ++ (one_done.pool.runing_head ++ one_done.pool.work_head)
executed_in_order_example = executed_in_order one_done_run refl

-- The pool is stopped while the second runs.
abbrev stopped : Run
stopped = record one_done { pool = record one_done.pool { state = stop } }

stopped_run : Reach initial stopped
unfolding request_stop
stopped_run = more one_done_run (halt one_done)

stopped_ends_example :
    (t : Run) × OwnReach stopped t × (t.pool.place ≡ ended) × (t.accepted ≡ 5 ∷ 6 ∷ [])
stopped_ends_example = stopped_ends stopped_run refl

abbrev over : Run
over = record {
  pool = record { state = stop; work_head = []; runing_head = []; place = ended };
  accepted = 5 ∷ 6 ∷ [];
  done = 5 ∷ 6 ∷ [];
  heads = 0;
}

over_run : Reach initial over
unfolding do_thread
over_run =
    more (more (more stopped_run (run stopped 6 [] refl refl)) (next _ refl refl)) (round _ refl)

ended-executed_example : count 6 (5 ∷ 6 ∷ []) ≡ count 6 (5 ∷ 6 ∷ [])
ended-executed_example = ended-executed over_run refl 6

abbrev three_pools : ThreadPool2
three_pools = record {
  tp1 = init_thread_pool1 ∷ init_thread_pool1 ∷ init_thread_pool1 ∷ [];
  thread_num = 3;
  current_idx = 4;
}
