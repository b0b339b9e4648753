-- ===== src/Connection.antt =====
-- corecode/network/ConnectionLinux.c and the jobs of corecode/network/SocketLinux.c that move the bytes
-- of one connection. The answers of read(2) and write(2) are lists, one answer for each call; a call
-- without an answer does not return, which is `aborted`. The jobs of one connection run one after
-- another, since the thread pool picks their thread by the file descriptor.
pub mod Writes
pub mod Order
pub mod Reads
pub mod Sides
pub mod Lifetime
pub mod Alive
pub mod Released
pub mod Scheduling
use muti.Common.{
  ℕ, zero, suc, ◌+◌, ◌-◌, List, [], ◌∷◌, ◌++◌, map, length, take, drop, Bool, true, false, Option,
  none, some, Outcome, ok, aborted, ◌>>=◌, ltb, ◌==◌, if◌then◌else◌,
}
use muti.Wire.{Bytes}

-- What write(2) answers: a number of bytes, EINTR, EAGAIN, or another error.
pub data WriteAnswer : Type 0 where
  wrote : ℕ → WriteAnswer
  write_interrupted : WriteAnswer
  write_would_block : WriteAnswer
  write_broken : WriteAnswer

-- What read(2) answers; no bytes are the end of the stream.
pub data ReadAnswer : Type 0 where
  got : Bytes → ReadAnswer
  read_interrupted : ReadAnswer
  read_would_block : ReadAnswer
  read_broken : ReadAnswer

-- `IOContext` of a write, by a number that stands for its callback; `buf` has the bytes to write.
pub record WriteJob : Type 0 where
  pub id : ℕ
  pub buf : Bytes
  pub trans_num : ℕ

-- `IOContext` of a read
pub record ReadJob : Type 0 where
  pub id : ℕ
  pub buf_size : ℕ

-- What `socketNoneBlockWrite` returns, none for -1, with the bytes that went out.
pub record Written : Type 0 where
  pub result : Option ℕ
  pub sent : Bytes
  pub answers : List WriteAnswer

abbrev pub count_on : ℕ → Option ℕ → Option ℕ
count_on n none = none
count_on n (some m) = some (n + m)

unfoldable pub socket_none_block_write : List WriteAnswer → Bytes → Outcome Written
socket_none_block_write answers [] = ok (record { result = some 0; sent = []; answers = answers })
socket_none_block_write [] (b ∷ buf) = aborted
socket_none_block_write (write_interrupted ∷ answers) (b ∷ buf) =
    socket_none_block_write answers (b ∷ buf)
socket_none_block_write (write_would_block ∷ answers) (b ∷ buf) =
    ok (record { result = some 0; sent = []; answers = answers })
socket_none_block_write (write_broken ∷ answers) (b ∷ buf) =
    ok (record { result = none; sent = []; answers = answers })
socket_none_block_write (wrote zero ∷ answers) (b ∷ buf) =
    ok (record { result = none; sent = []; answers = answers })
socket_none_block_write (wrote (suc n) ∷ answers) (b ∷ buf) = do
  w ← socket_none_block_write answers (drop n buf)
  ok (record w { result = count_on (suc n) w.result; sent = b ∷ take n buf ++ w.sent })

-- What the loop of `socketDoWrite` leaves: the jobs that stay, the callbacks with their `rc`, and the
-- bytes that went out.
pub record WriteRound : Type 0 where
  pub left : List WriteJob
  pub callbacks : List (ℕ × Bool)
  pub sent : Bytes
  pub is_open : Bool

-- `closed:`, where the callback of each job that is left comes with false.
unfoldable pub fail_all : List WriteJob → WriteRound
fail_all jobs = record {
  left = [];
  callbacks = map (λ job. (job.id, false)) jobs;
  sent = [];
  is_open = false;
}

-- The loop. After a failure the jobs are called back, but nothing closes the connection.
unfoldable pub socket_write_loop : List WriteAnswer → List WriteJob → Outcome WriteRound
unfolding socket_none_block_write fail_all
socket_write_loop answers [] = ok (record { left = []; callbacks = []; sent = []; is_open = true })
socket_write_loop answers (job ∷ jobs) = do
  w ← socket_none_block_write answers job.buf
  let later = socket_write_loop w.answers jobs
  elim w.result [
    | none ↦ let round = fail_all (job ∷ jobs) in ok (record round { sent = w.sent })
    | some zero ↦ ok (record { left = job ∷ jobs; callbacks = []; sent = w.sent; is_open = true })
    | some (suc n) ↦
        let kept = record job { buf = drop (suc n) job.buf; trans_num = job.trans_num + suc n } in
        let more = do
          round ← later
          ok (record round {
            callbacks = (job.id, true) ∷ round.callbacks;
            sent = w.sent ++ round.sent;
          })
        in if ltb (suc n) (length job.buf)
          then ok (record { left = kept ∷ jobs; callbacks = []; sent = w.sent; is_open = true })
          else more
  ]

-- The writing side of `ConnectionLinux`; `sent` and `called_back` are all that went out and all that
-- was called back so far.
pub record WriteSide : Type 0 where
  pub is_closed : Bool
  pub write_jobs : List WriteJob
  pub sent : Bytes
  pub called_back : List (ℕ × Bool)

-- `connWrite`: whether it takes the buffer.
unfoldable pub conn_write : ℕ → Bytes → WriteSide → Bool × WriteSide
conn_write id buf c =
    let queued = record c {
      write_jobs = c.write_jobs ++ record { id = id; buf = buf; trans_num = 0 } ∷ [];
    } in
    if c.is_closed then (false, c) else (true, queued)

-- `socketDoWrite`, with the jobs that were queued while it ran: what it leaves comes before them.
unfoldable pub socket_do_write : List WriteAnswer → List WriteJob → WriteSide → Outcome WriteSide
unfolding socket_write_loop fail_all
socket_do_write answers queued c = do
  round ← if c.is_closed then ok (fail_all c.write_jobs) else socket_write_loop answers c.write_jobs
  ok (record c {
    write_jobs = round.left ++ queued;
    sent = c.sent ++ round.sent;
    called_back = c.called_back ++ round.callbacks;
  })

-- The first part of `socketCloseConnection` on this side: the flag, and the callbacks of what waits.
unfoldable pub close_writes : WriteSide → WriteSide
unfolding fail_all
close_writes c =
    let round = fail_all c.write_jobs in
    let closed = record c {
      is_closed = true;
      write_jobs = [];
      called_back = c.called_back ++ round.callbacks;
    } in
    if c.is_closed then c else closed

-- `socketNoneBlockRead` into this much room, none for -1; bytes that came before an error are lost.
-- The answers bring no more bytes than there is room for.
unfoldable pub socket_none_block_read :
    List ReadAnswer → ℕ → Outcome (Option Bytes × List ReadAnswer)
socket_none_block_read answers zero = ok (some [], answers)
socket_none_block_read [] (suc room) = aborted
socket_none_block_read (read_interrupted ∷ answers) (suc room) =
    socket_none_block_read answers (suc room)
socket_none_block_read (read_would_block ∷ answers) (suc room) = ok (some [], answers)
socket_none_block_read (read_broken ∷ answers) (suc room) = ok (none, answers)
socket_none_block_read (got [] ∷ answers) (suc room) = ok (none, answers)
socket_none_block_read (got (b ∷ bytes) ∷ answers) (suc room) = do
  (result, rest) ← socket_none_block_read answers (room - length bytes)
  ok (
    elim result as (λ _. Option Bytes) [ none ↦ none | some more ↦ some (b ∷ bytes ++ more) ],
    rest,
  )

-- What the loop of `socketDoRead` leaves; a callback has the bytes, or none with `rc` false.
pub record ReadRound : Type 0 where
  pub left : List ReadJob
  pub callbacks : List (ℕ × Option Bytes)
  pub is_open : Bool

-- The loop of `socketDoRead`; after an error it closes the connection.
unfoldable pub socket_read_loop : List ReadAnswer → List ReadJob → Outcome ReadRound
unfolding socket_none_block_read
socket_read_loop answers [] = ok (record { left = []; callbacks = []; is_open = true })
socket_read_loop answers (job ∷ jobs) = do
  (result, rest) ← socket_none_block_read answers job.buf_size
  let later = socket_read_loop rest jobs
  elim result [
    | none ↦ ok (record {
      left = [];
      callbacks = map (λ (j : ReadJob). (j.id, none)) (job ∷ jobs);
      is_open = false;
    })
    | some [] ↦ ok (record { left = job ∷ jobs; callbacks = []; is_open = true })
    | some (b ∷ bytes) ↦
        let more = do
          round ← later
          ok (record round { callbacks = (job.id, some (b ∷ bytes)) ∷ round.callbacks })
        in if ltb (suc (length bytes)) job.buf_size
          then ok
              (record { left = jobs; callbacks = (job.id, some (b ∷ bytes)) ∷ []; is_open = true })
          else more
  ]
