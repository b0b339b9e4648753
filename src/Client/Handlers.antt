-- ===== src/Client/Handlers.antt =====
-- The handlers of one connection of corecode/client/Client.c: the read buffers, the requests that it
-- sent, and the counters that its close handler waits for.
-- A read buffer is a number, in the order in which the buffers are made, and so is a request: `arg` of
-- its entry stands for the `ClientSendArg` in memory. `reference` and `ref` give the counts of
-- references, which are 0 before the memory is made and after it is freed. Each callback is one step,
-- and so is each call of `clientSendRequest`.
use muti.Common.{
  ℕ, zero, suc, ◌+◌, ◌-◌, ◌^◌, List, [], ◌∷◌, ◌++◌, map, length, count, set_reference, Bool, true,
  false, Option, none, some, Outcome, ok, aborted, ◌>>=◌, ltb, ◌==◌, if◌then◌else◌,
}
use muti.Wire.{Bytes}
use muti.Messages.{ClusterRequest, ClusterResponse}
use muti.Client.{
  ClientSendArg, Client, hash_of, set_slot, init_client, client_send_request, Received, client_read,
}

-- A response in the worker pool, or in the hands of a callback that keeps it: its entry, and the read
-- buffer that it stands in.
pub record ClientJob : Type 0 where
  pub send_arg : ClientSendArg
  pub response : ClusterResponse
  pub rbuf : ℕ

-- The requests. `writing` has the sequence number and the number of each request whose write runs;
-- `sent` all for which `sendRequest` returned true; and `called_back` all that were called back, with
-- the error number of the response.
pub record Requests : Type 0 where
  pub client : Client
  pub ref : ℕ → ℕ
  pub next_arg : ℕ
  pub writing : List (ℕ × ℕ)
  pub jobs : List ClientJob
  pub kept : List ClientJob
  pub sent : List ℕ
  pub called_back : List (ℕ × ℕ)
  pub write_counter : ℕ
  pub write_done_counter : ℕ

-- The connection with its read buffers; `content` has the bytes that are not processed yet.
pub record CConnection : Type 0 where
  pub requests : Requests
  pub reference : ℕ → ℕ
  pub next_buffer : ℕ
  pub processed : ℕ
  pub content : Bytes
  pub reading : Option ℕ
  pub read_counter : ℕ
  pub read_done_counter : ℕ

-- `clientOnConnect` of the client that `initClient` made; the read that it starts does start.
unfoldable pub client_on_connect : CConnection
unfolding set_reference init_client
client_on_connect = record {
  requests = record {
    client = init_client;
    ref = λ _. 0;
    next_arg = 0;
    writing = [];
    jobs = [];
    kept = [];
    sent = [];
    called_back = [];
    write_counter = 0;
    write_done_counter = 0;
  };
  reference = set_reference (λ _. 0) 0 1;
  next_buffer = 1;
  processed = 0;
  content = [];
  reading = some 0;
  read_counter = 1;
  read_done_counter = 0;
}

-- `clientSendRequest`, with its entry and its counters; `rc` is what the connection's `write` returns.
unfoldable pub send_request : ClusterRequest → Bool → Requests → Outcome (Option Bytes × Requests)
unfolding set_reference client_send_request
send_request req rc s = do
  (wbuf, client) ← client_send_request s.client req s.next_arg rc
  let numbered = record s { client = client; next_arg = s.next_arg + 1 }
  elim wbuf as (λ _. Outcome (Option Bytes × Requests)) [
    | some buf ↦ ok (
      wbuf,
      record numbered {
        ref = set_reference s.ref s.next_arg 2;
        writing = (client.sequence, s.next_arg) ∷ s.writing;
        sent = s.next_arg ∷ s.sent;
        write_counter = s.write_counter + 1;
      },
    )
    | none ↦
        let refused = record numbered {
          write_counter = s.write_counter + 1;
          write_done_counter = s.write_done_counter + 1;
        } in
        ok (wbuf, if s.client.conn then refused else s)
  ]

-- One reference to an entry goes; on an entry that was freed it uses freed memory.
unfoldable pub release : ℕ → Requests → Outcome Requests
unfolding set_reference
release n s =
    if s.ref n == 0 then aborted else ok (record s { ref = set_reference s.ref n (s.ref n - 1) })

-- The numbers of the requests that wait in a list.
abbrev pub args_of : List ClientSendArg → List ℕ
args_of = map (λ a. a.arg)

-- `listDel` of the entry of a request
unfoldable pub delete : ℕ → List ClientSendArg → List ClientSendArg
delete n [] = []
delete n (a ∷ slot) = if a.arg == n then slot else a ∷ delete n slot

-- `clientWriteCallback`. After a failure the entry is deleted from its list, where it has to be.
unfoldable pub client_write_callback : Bool → ℕ × ℕ → Requests → Outcome Requests
unfolding set_reference set_slot hash_of release delete
client_write_callback false (sequence, n) s =
    let i = hash_of sequence in
    let slot = s.client.waiting_hash_slots i in
    let slots = set_slot s.client.waiting_hash_slots i (delete n slot) in
    let failed_write = record s {
      client = record s.client { waiting_hash_slots = slots };
      ref = set_reference s.ref n 0;
      called_back = s.called_back ++ (n, 2 ^ 32 - 3) ∷ [];
      write_done_counter = s.write_done_counter + 1;
    } in
    if count n (args_of slot) == 0 then aborted else ok failed_write
client_write_callback true (sequence, n) s = do
  s' ← release n s
  ok (record s' { write_done_counter = s.write_done_counter + 1 })

-- The entries of the first lists, in their order.
unfoldable pub entries_below : ℕ → (ℕ → List ClientSendArg) → List ClientSendArg
entries_below zero slots = []
entries_below (suc i) slots = entries_below i slots ++ slots i

-- `CLIENT_WAITING_HASH_LEN`
unfoldable pub client_waiting_hash_len : ℕ
client_waiting_hash_len = 128

-- The first step of `clientOnClose`
unfoldable pub disconnect : Requests → Requests
disconnect s = record s { client = record s.client { conn = false } }

-- The last loop of `clientOnClose`: what waits is called back, and its entry is freed.
unfoldable pub fail_waiting : Requests → Requests
unfolding entries_below client_waiting_hash_len
fail_waiting s =
    let entries = entries_below client_waiting_hash_len s.client.waiting_hash_slots in
    record s {
      client = record s.client { waiting_hash_slots = λ _. [] };
      ref = λ n. if count n (args_of entries) == 0 then s.ref n else 0;
      called_back = s.called_back ++ map (λ a. (a.arg, 2 ^ 32 - 4)) entries;
    }

-- What a thread in `clientSendRequestSync` for the request `n` returns; none while it waits.
unfoldable pub send_request_sync_result : ℕ → List (ℕ × ℕ) → Option Bool
send_request_sync_result n [] = none
send_request_sync_result n ((k, error_id) ∷ called) =
    if k == n then some (error_id == 0) else send_request_sync_result n called

-- `clientFreeReadBuffer`; on a buffer that was freed it uses freed memory.
unfoldable pub client_free_read_buffer : ℕ → CConnection → Outcome CConnection
unfolding set_reference
client_free_read_buffer b c =
    let left = c.reference b - 1 in
    let c₁ = record c { reference = set_reference c.reference b left } in
    let c₂ = record c₁ { read_done_counter = c.read_done_counter + 1 } in
    if c.reference b == 0 then aborted else ok (if left == 0 then c₂ else c₁)

-- The connection's `read` into the buffer `b`; `rc` is what it returns.
unfoldable pub start_read : ℕ → Bool → CConnection → Outcome CConnection
unfolding client_free_read_buffer
start_read b true c = ok (record c { reading = some b })
start_read b false c = client_free_read_buffer b c

-- `clientRead` on the buffer `b`, whose unprocessed bytes are the content, of a client with read
-- buffers of this size. In a new buffer they are copied to the start.
unfoldable pub read_on : ℕ → ℕ → Bool → CConnection → Outcome CConnection
unfolding client_free_read_buffer set_reference start_read
read_on read_buffer_size b rc c =
    let fresh = c.next_buffer in
    let made = record c {
      reference = set_reference c.reference fresh 1;
      next_buffer = suc fresh;
      processed = 0;
    } in
    let replace = do
      c₁ ← client_free_read_buffer b made
      start_read fresh rc (record c₁ { read_counter = c₁.read_counter + 1 })
    in if ltb (c.processed + length c.content) read_buffer_size then start_read b rc c else replace

-- The responses that were decoded from the buffer `b` go to the worker pool; each holds the buffer.
unfoldable pub queue_jobs : ℕ → ℕ → Received → CConnection → CConnection
unfolding set_reference
queue_jobs b size r c = record c {
  requests = record c.requests {
    client = r.client;
    jobs =
        c.requests.jobs
        ++ map (λ d. record { send_arg = d.0; response = d.1; rbuf = b }) r.delivered;
  };
  reference = set_reference c.reference b (c.reference b + (1 + length r.delivered));
  processed = c.processed + (length c.content + size - length r.left);
  content = r.left;
  reading = none;
}

-- The part of `clientReadCallback` that follows on the decoding of the bytes in the buffer `b`, to
-- which the read added `size` bytes. The callback has a reference of its own until it ends.
unfoldable pub after_reading : ℕ → ℕ → ℕ → Bool → Received → CConnection → Outcome CConnection
unfolding queue_jobs read_on client_free_read_buffer
after_reading read_buffer_size b size rc r c =
    let queued = queue_jobs b size r c in
    if r.is_open
    then (read_on read_buffer_size b rc queued >>= client_free_read_buffer b)
    else (client_free_read_buffer b queued >>= client_free_read_buffer b)

-- `clientReadCallback` for a read into `b` that brought `bytes`; `rc` is what the connection's next
-- `read` returns.
unfoldable pub client_read_callback : ℕ → ℕ → Bytes → Bool → CConnection → Outcome CConnection
unfolding client_read after_reading
client_read_callback read_buffer_size b bytes rc c = do
  let buf = c.content ++ bytes
  r ← client_read (suc (length buf)) c.requests.client buf
  after_reading read_buffer_size b (length bytes) rc r c

-- `clientReadCallback` for a read that failed
unfoldable pub client_read_failed : ℕ → CConnection → Outcome CConnection
unfolding client_free_read_buffer
client_read_failed b c = client_free_read_buffer b (record c { reading = none })

-- `clientFreeResp`, which frees the response of a job
unfoldable pub client_free_resp : ClientJob → CConnection → Outcome CConnection
unfolding client_free_read_buffer release
client_free_resp job c = do
  c₁ ← client_free_read_buffer job.rbuf c
  s ← release job.send_arg.arg c₁.requests
  ok (record c₁ { requests = s })

-- `clientDoJob`; a callback that keeps the response frees it later.
unfoldable pub client_do_job : ClientJob → Bool → CConnection → Outcome CConnection
unfolding client_free_resp
client_do_job job keep c =
    let s = c.requests in
    let called = record s {
      called_back = s.called_back ++ (job.send_arg.arg, job.response.header.error_id) ∷ [];
    } in
    if keep
    then ok (record c { requests = record called { kept = job ∷ s.kept } })
    else client_free_resp job (record c { requests = called })
