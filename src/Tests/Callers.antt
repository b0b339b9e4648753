-- ===== src/Tests/Callers.antt =====
-- A client's connection: two requests are sent, the first is answered with an error, and the
-- connection breaks before the second is.
use muti.Common.{◌+◌, ◌^◌, ◌≡◌, ◌≤◌, ◌<◌, ◌-◌, ◌↔◌, refl, [], ◌∷◌, true, false, count, ok, arith}
use muti.Wire.{Bytes, read_u32}
use muti.Messages.{ClusterRequest, plain, cluster_request_id, cluster_request_encoder}
use muti.Client.{mon_sender}
use muti.Client.Handlers.{CConnection, client_on_connect, fail_waiting}
use muti.Client.Runs.{
  requested, read_came, read_failed, did, written, handle, Reach, connected, happened,
}
use muti.Client.Runs.Waits.{waits}
use muti.Client.Runs.Accounts.{job_args, called_args}
use muti.Client.Runs.Close.{
  IsIdle, callbacks_return, called_back_once, close_loops_end, closed_calls_back,
}

abbrev ask : ClusterRequest
ask = record { header = record { resource_id = 0; request_id = 7; sequence = 0 }; body = plain }

-- The header of a response with error 1 to the first request.
abbrev refusal : Bytes
refusal = 1 ∷ 0 ∷ 0 ∷ 0 ∷ 255 ∷ 3 ∷ 0 ∷ 0 ∷ []

both_sent : (c : CConnection) × Reach 64 c
unfolding handle client_on_connect cluster_request_id cluster_request_encoder mon_sender
both_sent = (
  _,
  happened (requested ask true) (happened (requested ask true) connected (_, refl) refl) (_, refl)
      refl,
)

-- The first response is in the worker pool.
answered : (c : CConnection) × Reach 64 c
unfolding both_sent handle client_on_connect cluster_request_id cluster_request_encoder read_u32
answered = (_, happened (read_came 0 refusal true) both_sent.1 (refl, omega arith, (_, refl)) refl)

called_back_once_example :
    (count 0 (called_args answered.0.requests.called_back) ≤ 1)
    × (waits answered.0.requests.client 0
          + count 0 (job_args answered.0.requests.jobs)
          + count 0 (called_args answered.0.requests.called_back)
        ≡ count 0 answered.0.requests.sent)
called_back_once_example = called_back_once 64 answered.1 0

callbacks_return_example : (c : CConnection) × (handle 64 (did 0 false) answered.0 ≡ ok c)
unfolding answered both_sent handle client_on_connect cluster_request_id cluster_request_encoder
callbacks_return_example = callbacks_return 64 (did 0 false) answered.1 (omega arith)

close_loops_end_example :
    ((answered.0.read_counter ≡ answered.0.read_done_counter) ↔ IsIdle answered.0)
    × ((answered.0.requests.write_counter ≡ answered.0.requests.write_done_counter)
        ↔ (answered.0.requests.writing ≡ []))
close_loops_end_example = close_loops_end 64 answered.1

-- The caller is told, the writes are done, and the connection breaks.
broken : (c : CConnection) × Reach 64 c
unfolding answered both_sent handle client_on_connect cluster_request_id cluster_request_encoder
    read_u32
broken = (
  _,
  happened (read_failed 0)
      (happened (written 0 true)
        (happened (written 0 true) (happened (did 0 false) answered.1 (omega arith) refl) tt refl)
        tt refl)
      refl refl,
)

nothing_runs :
    (broken.0.read_counter ≡ broken.0.read_done_counter)
    × (broken.0.requests.write_counter ≡ broken.0.requests.write_done_counter)
unfolding broken answered both_sent handle client_on_connect cluster_request_id
    cluster_request_encoder read_u32
nothing_runs = (refl, refl)

-- The second request is called back by the close handler.
closed_calls_back_example :
    (count 1 broken.0.requests.sent ≤ 1)
    × (count 1 (called_args (fail_waiting broken.0.requests).called_back)
        ≡ count 1 broken.0.requests.sent)
    × ((fail_waiting broken.0.requests).ref 1 ≡ 0)
    × (broken.0.reference 1 ≡ 0)
closed_calls_back_example = closed_calls_back 64 broken.1 nothing_runs.0 nothing_runs.1 1

was_sent : 0 < count 1 broken.0.requests.sent
unfolding broken answered both_sent handle client_on_connect cluster_request_id
    cluster_request_encoder read_u32
was_sent = omega arith

both_called_back : (fail_waiting broken.0.requests).called_back ≡ (0, 1) ∷ (1, 2 ^ 32 - 4) ∷ []
unfolding broken answered both_sent handle client_on_connect cluster_request_id
    cluster_request_encoder read_u32 fail_waiting
both_called_back = refl
