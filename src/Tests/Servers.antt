-- ===== src/Tests/Servers.antt =====
-- Two connections of the monitor's server with small buffers.
use muti.Common.{
  set_reference, ℕ, ◌≡◌, ◌≤◌, refl, List, [], ◌∷◌, ◌++◌, true, false, none, some, flatten, ok,
  arith,
}
use muti.Wire.{Bytes, read_u16, read_u32}
use muti.Messages.{ClusterRequest, plain, cluster_request_id}
use muti.Server.{
  ServerParam, SConnection, Decoded, server_on_connect, server_on_close, decode_requests,
}
use muti.Server.Stream.{decode_reads, reads-together}
use muti.Server.Cluster.{monitor_request_handler, monitor-IsHandled, monitor_decoders}
use muti.Server.Buffers.{
  read_came, read_refused, read_failed, acted, written, handle, Reach, connected, happened,
}
use muti.Common.Live.{live}
use muti.Server.Buffers.Room.{IsRoomy}
use muti.Server.Buffers.Runs.{
  handlers_return, read_buffers_bounded, close_does_not_wait, reads_have_room,
}

abbrev small : ServerParam
small = record { read_buffer_size = 16; max_read_buffer_counter = 2 }

-- The bytes of a request for the status.
abbrev ask : ℕ → Bytes
ask sequence = 0 ∷ 0 ∷ 7 ∷ 0 ∷ sequence ∷ 0 ∷ 0 ∷ 0 ∷ []

abbrev asked : ℕ → ClusterRequest
asked sequence = record {
  header = record { resource_id = 0; request_id = 7; sequence = sequence };
  body = plain;
}

-- Two requests that come in three reads, the second read with the end of one and the front of another.
abbrev pieces : List Bytes
pieces = (0 ∷ 0 ∷ 7 ∷ []) ∷ (0 ∷ 1 ∷ 0 ∷ 0 ∷ 0 ∷ 0 ∷ 0 ∷ 7 ∷ 0 ∷ 2 ∷ []) ∷ (0 ∷ 0 ∷ 0 ∷ 5 ∷ []) ∷ []

abbrev both : Decoded ClusterRequest
both = record { requests = asked 1 ∷ asked 2 ∷ []; left = 5 ∷ []; is_open = true }

pieces-decoded : decode_reads monitor_request_handler [] pieces ≡ ok both
unfolding decode_reads monitor_decoders read_u16 read_u32 cluster_request_id
pieces-decoded = refl

reads-together_example :
    decode_requests monitor_request_handler
      (0 ∷ 0 ∷ 7 ∷ 0 ∷ 1 ∷ 0 ∷ 0 ∷ 0 ∷ 0 ∷ 0 ∷ 7 ∷ 0 ∷ 2 ∷ 0 ∷ 0 ∷ 0 ∷ 5 ∷ [])
    ≡ ok both
unfolding flatten
reads-together_example =
    reads-together monitor_request_handler monitor-IsHandled pieces both pieces-decoded refl

-- Two requests fill the first buffer: the second buffer is the last that may be, and is parked.
abbrev full_buffer : SConnection
full_buffer = record {
  reference =
      set_reference
        (set_reference
          (set_reference (set_reference (set_reference (set_reference (λ _. 0) 0 1) 0 2) 0 4) 1 1) 0
          3)
        0 2;
  next_buffer = 2;
  reading = none;
  to_read_buf = some 1;
  processed = 0;
  content = [];
  inflight = 0 ∷ 0 ∷ [];
  read_counter = 2;
  write_counter = 0;
  write_done_counter = 0;
  received_request_counter = 2;
  sent_request_counter = 0;
}

full_buffer-Reach : Reach small monitor_request_handler full_buffer
unfolding handle server_on_connect monitor_decoders read_u16 read_u32 cluster_request_id
full_buffer-Reach =
    happened (read_came 0 (0 ∷ 0 ∷ 7 ∷ 0 ∷ 1 ∷ 0 ∷ 0 ∷ 0 ∷ 0 ∷ 0 ∷ 7 ∷ 0 ∷ 2 ∷ 0 ∷ 0 ∷ 0 ∷ []))
      connected
      (
        refl,
        omega arith,
        (record { requests = asked 1 ∷ asked 2 ∷ []; left = []; is_open = true }, refl),
      )
      refl

-- One answer goes out.
abbrev one_answer : SConnection
one_answer = record full_buffer {
  reference = set_reference full_buffer.reference 0 1;
  inflight = 0 ∷ [];
  write_counter = 1;
}

one_answer-Reach : Reach small monitor_request_handler one_answer
unfolding handle
one_answer-Reach = happened (acted 0 true) full_buffer-Reach (omega arith) refl

-- The worker pool takes the first of two jobs and refuses the second: the connection has no read.
refused_second :
    (c : SConnection) × Reach small monitor_request_handler c
    × (c.reading ≡ none)
    × (c.inflight ≡ 0 ∷ [])
    × (c.received_request_counter ≡ 2)
    × (c.sent_request_counter ≡ 1)
unfolding handle server_on_connect monitor_decoders read_u16 read_u32 cluster_request_id
refused_second = (
  _,
  happened (read_refused 0 (ask 1 ++ ask 2) 1) connected
      (refl, omega arith, (asked 1 ∷ [], [], refl)) refl,
  refl,
  refl,
  refl,
  refl,
)

handlers_return_example :
    (c : SConnection) × (handle small monitor_request_handler (acted 0 false) one_answer ≡ ok c)
handlers_return_example =
    handlers_return small monitor_request_handler (omega arith) (acted 0 false) one_answer-Reach
      (omega arith)

-- The other cannot be written: its buffer is freed, and the parked one is read into.
abbrev resumed : SConnection
resumed = record one_answer {
  reference = set_reference one_answer.reference 0 0;
  reading = some 1;
  to_read_buf = none;
  inflight = [];
  read_counter = 1;
  write_counter = 2;
  write_done_counter = 1;
  sent_request_counter = 1;
}

resumed-Reach : Reach small monitor_request_handler resumed
unfolding handle
resumed-Reach = happened (acted 0 false) one_answer-Reach (omega arith) refl

reads_have_room_example : IsRoomy small resumed
reads_have_room_example =
    reads_have_room small monitor_request_handler (omega arith) monitor-IsHandled resumed-Reach

read_buffers_bounded_example : (1 ≡ live 2 resumed.reference) × (1 ≤ 2)
read_buffers_bounded_example =
    read_buffers_bounded small monitor_request_handler (omega arith) resumed-Reach

-- The write is done and the read fails.
abbrev drained : SConnection
drained = record resumed {
  reference = set_reference resumed.reference 1 0;
  reading = none;
  read_counter = 0;
  write_done_counter = 2;
  sent_request_counter = 2;
}

drained-Reach : Reach small monitor_request_handler drained
unfolding handle
drained-Reach =
    happened (read_failed 1) (happened written resumed-Reach (omega arith) refl) refl refl

close_does_not_wait_example :
    ((server_on_close drained).read_counter ≡ 0)
    × ((server_on_close drained).write_counter ≡ (server_on_close drained).write_done_counter)
close_does_not_wait_example =
    close_does_not_wait small monitor_request_handler (omega arith) drained-Reach refl refl
