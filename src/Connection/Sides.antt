-- ===== src/Connection/Sides.antt =====
-- One direction of a connection, reads or writes, of corecode/network/ConnectionLinux.c and
-- SocketLinux.c: how its jobs come to a thread of the pool. Each access to a field that several
-- threads share is a step of its own. What a job does with the bytes is in Connection.
use muti.Common.{
  ℕ, ◌+◌, ◌-◌, ◌≤◌, ◌<◌, ◌≡◌, List, [], ◌∷◌, ◌++◌, length, take, drop, Bool, true, false, leb, ◌==◌,
  if◌then◌else◌,
}

-- What `socketDoWrite` or `socketDoRead` is about to do: nothing runs; it is about to take the list; or
-- it goes through what it took.
pub data Runner : Type 0 where
  idle : Runner
  starting : Runner
  running : Runner

-- `flag` is `is_writing` or `is_reading`. The threads in `connWrite`, or in the epoll loop behind its
-- test, are counted by where they are: before they add to the flag, before they hand the job to the
-- pool, and before they subtract from the flag again. `pooled` counts how often the pool has the job.
-- `blocked` says that the last run left jobs because the socket would block; epoll reports that it can
-- go on. `issued` and `called_back` are all IO contexts so far, by numbers.
pub record Side : Type 0 where
  pub jobs : List ℕ
  pub taken : List ℕ
  pub runner : Runner
  pub flag : ℕ
  pub adding : ℕ
  pub inserting : ℕ
  pub returning : ℕ
  pub pooled : ℕ
  pub blocked : Bool
  pub issued : List ℕ
  pub called_back : List ℕ

-- What `createConnection` makes.
unfoldable pub new_side : Side
new_side = record {
  jobs = [];
  taken = [];
  runner = idle;
  flag = 0;
  adding = 0;
  inserting = 0;
  returning = 0;
  pooled = 0;
  blocked = false;
  issued = [];
  called_back = [];
}

-- `called` is `connWrite` or `connRead` up to where the IO context is in the list, and `polled` the
-- epoll loop, which found the flag down. `begun` and `took` are the front of `socketDoWrite` or
-- `socketDoRead`, and `finished n` the rest, which called back n contexts.
pub data Action : Type 0 where
  called : ℕ → Action
  polled : Action
  bumped : Action
  inserted : Action
  returned : Action
  begun : Action
  took : Action
  finished : ℕ → Action

-- `connRead` and `connWrite` up to the flag: the IO context is in the list.
unfoldable pub queue_context : ℕ → Side → Side
queue_context id s = record s {
  jobs = s.jobs ++ id ∷ [];
  adding = s.adding + 1;
  issued = id ∷ s.issued;
}

-- The epoll loop, where the flag is down.
unfoldable pub poll_event : Side → Side
poll_event s = record s { adding = s.adding + 1 }

-- A thread adds to the flag, and is the first if it is 1 then.
unfoldable pub add_to_flag : Side → Side
add_to_flag s =
    let first = record s { flag = 1; adding = s.adding - 1; inserting = s.inserting + 1 } in
    let other = record s {
      flag = s.flag + 1;
      adding = s.adding - 1;
      returning = s.returning + 1;
    } in
    if s.flag == 0 then first else other

-- `socketInsertReadJob` and `socketInsertWriteJob`; the pool takes the job.
unfoldable pub socket_insert_job : Side → Side
socket_insert_job s = record s { inserting = s.inserting - 1; pooled = s.pooled + 1 }

-- A thread that was not the first subtracts what it added.
unfoldable pub subtract_from_flag : Side → Side
subtract_from_flag s = record s { returning = s.returning - 1; flag = s.flag - 1 }

-- `socketDoRead` and `socketDoWrite` up to the list, the taking of the list, and the rest with n
-- callbacks; what is left goes to the front of the list.
unfoldable pub do_begin : Side → Side
do_begin s = record s { pooled = s.pooled - 1; flag = s.flag - 1; runner = starting }

unfoldable pub do_take : Side → Side
do_take s = record s { taken = s.jobs; jobs = []; runner = running; blocked = false }

unfoldable pub do_rest : ℕ → Side → Side
do_rest n s = record s {
  jobs = drop n s.taken ++ s.jobs;
  taken = [];
  runner = idle;
  blocked = if leb (length s.taken) n then s.blocked else true;
  called_back = s.called_back ++ take n s.taken;
}

unfoldable pub act : Action → Side → Side
unfolding queue_context poll_event add_to_flag socket_insert_job subtract_from_flag do_begin do_take
    do_rest
act (called id) s = queue_context id s
act polled s = poll_event s
act bumped s = add_to_flag s
act inserted s = socket_insert_job s
act returned s = subtract_from_flag s
act begun s = do_begin s
act took s = do_take s
act (finished n) s = do_rest n s

-- The references to the connection that it takes, and that it gives up: one for each context, until
-- its callback returned, and one for each job in the pool, until its run is over.
unfoldable pub gains : Action → ℕ
gains (called id) = 1
gains inserted = 1
gains _ = 0

unfoldable pub loses : Action → ℕ
loses (finished n) = n + 1
loses _ = 0

-- When it can happen. The pool picks the thread by the file descriptor, so the runs of one direction
-- follow one another.
abbrev pub CanAct : Action → Side → Type 0
CanAct (called id) s = Unit
CanAct polled s = (s.flag ≡ 0)
CanAct bumped s = (0 < s.adding)
CanAct inserted s = (0 < s.inserting)
CanAct returned s = (0 < s.returning)
CanAct begun s = (0 < s.pooled) × (s.runner ≡ idle)
CanAct took s = (s.runner ≡ starting)
CanAct (finished n) s = (s.runner ≡ running) × (n ≤ length s.taken)

-- The part of `socketPostIOJobs` on this side: what waits is called back.
unfoldable pub post_jobs : Side → Side
post_jobs s = record s { jobs = []; called_back = s.called_back ++ s.jobs }
