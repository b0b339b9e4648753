-- ===== src/Server.antt =====
-- corecode/server/Server.c: the read buffers of one connection of a server, the requests that are
-- decoded from them, and the counters that its close handler waits for.
-- A read buffer is a number, in the order in which the buffers are made; `reference` gives the
-- reference count of each, which is 0 before it is made and after it is freed. Of a buffer's memory
-- the model has the bytes that are not processed yet. Each callback of the connection and each
-- callback of an action is one step, as if no other thread ran in it: the code counts and parks a
-- buffer in two accesses, between which other threads may free buffers.
pub mod Rounds
pub mod Stream
pub mod Buffers
pub mod Cluster
use muti.Common.{
  set_reference, ℕ, zero, suc, ◌+◌, ◌-◌, ◌/◌, List, [], ◌∷◌, ◌++◌, length, replicate, drop_one,
  Bool, true, false, Option, none, some, Outcome, ok, failed, aborted, ◌>>=◌, at, ltb, ◌==◌,
  if◌then◌else◌,
}
use muti.Wire.{Bytes, Reader, read_u16}

-- `read_buffer_size` and `max_read_buffer_counter` of `ServerParam`
pub record ServerParam : Type 0 where
  pub read_buffer_size : ℕ
  pub max_read_buffer_counter : ℕ

-- `SConnectionContext` with the buffers: `reading` is the buffer that the connection reads into,
-- until the read's callback, `content` the bytes in it that are not processed, and `processed` where
-- they start. A buffer in `to_read_buf` has them too. `inflight` has the buffer of each request that is not answered yet.
pub record SConnection : Type 0 where
  pub reference : ℕ → ℕ
  pub next_buffer : ℕ
  pub reading : Option ℕ
  pub to_read_buf : Option ℕ
  pub processed : ℕ
  pub content : Bytes
  pub inflight : List ℕ
  pub read_counter : ℕ
  pub write_counter : ℕ
  pub write_done_counter : ℕ
  pub received_request_counter : ℕ
  pub sent_request_counter : ℕ

-- `serverOnConnect`: the first buffer, and the read into it
unfoldable pub server_on_connect : SConnection
unfolding set_reference
server_on_connect = record {
  reference = set_reference (λ _. 0) 0 1;
  next_buffer = 1;
  reading = some 0;
  to_read_buf = none;
  processed = 0;
  content = [];
  inflight = [];
  read_counter = 1;
  write_counter = 0;
  write_done_counter = 0;
  received_request_counter = 0;
  sent_request_counter = 0;
}

-- What the decoding loop of `serverReadCallback` leaves: the requests, the bytes that stay, and
-- whether the connection stays open.
pub record Decoded {ℓ} (R : Type ℓ) : Type ℓ where
  pub requests : List R
  pub left : Bytes
  pub is_open : Bool

-- The request handlers by resource id, each a table of decoders by request id, either of which may be
-- missing. A decoder fails if it needs more bytes.
module _ {ℓ} {R : Type ℓ} (request_handler : List (Option (ℕ → Option (Reader R)))) where
  -- `request_handler[resource_id].request_decoders[request_id]`, or none where the code closes the
  -- connection. The bound is the code's: the length itself passes, and is out of bounds.
  unfoldable pub decoder_of : ℕ → ℕ → Outcome (Option (Reader R))
  decoder_of resource_id request_id =
      let table = do
        handler ← at request_handler resource_id
        elim handler [ none ↦ ok none | some decoders ↦ ok (decoders request_id) ]
      in if ltb (length request_handler) resource_id then ok none else table

  -- The decoder that the front of the buffer asks for.
  unfoldable pub front_decoder : Bytes → Outcome (Option (Reader R))
  unfolding decoder_of
  front_decoder buf = do
    (resource_id, buf₁) ← read_u16 buf
    (request_id, buf₂) ← read_u16 buf₁
    decoder_of resource_id request_id

  -- The loop, on a buffer that holds these bytes. `failed` is that the fuel is used up; the loop itself
  -- ends with `ok` or stops the process.
  unfoldable pub decode_loop : ℕ → Bytes → Outcome (Decoded R)
  unfolding front_decoder
  decode_loop zero buf = failed
  decode_loop (suc fuel) buf =
      let step = do
        decoder ← front_decoder buf
        elim decoder [
          | none ↦ ok (record { requests = []; left = buf; is_open = false })
          | some read ↦ elim (read buf) [
            | ok (request, rest) ↦ do
              d ← decode_loop fuel rest
              ok (record d { requests = request ∷ d.requests })
            | failed ↦ ok (record { requests = []; left = buf; is_open = true })
            | aborted ↦ aborted
          ]
        ]
      in if ltb (length buf) 4
        then ok (record { requests = []; left = buf; is_open = true })
        else step

  -- One round that decodes a request; `failed` if the loop decodes none here.
  unfoldable pub decode_one : Bytes → Outcome (R × Bytes)
  unfolding front_decoder
  decode_one buf =
      let decoded = do
        decoder ← front_decoder buf
        elim decoder [ none ↦ failed | some read ↦ read buf ]
      in if ltb (length buf) 4 then failed else decoded

  -- The loop, where the worker pool takes the jobs of n requests and refuses the next: the requests,
  -- and the bytes behind the refused one; `failed` if it does not come to that.
  unfoldable pub decode_refused : ℕ → Bytes → Outcome (List R × Bytes)
  unfolding decode_one
  decode_refused zero buf = do (refused, rest) ← decode_one buf; ok ([], rest)
  decode_refused (suc n) buf = do
    (request, rest) ← decode_one buf
    (requests, left) ← decode_refused n rest
    ok (request ∷ requests, left)

  -- Enough fuel for decoders that take a byte at least.
  unfoldable pub decode_requests : Bytes → Outcome (Decoded R)
  unfolding decode_loop
  decode_requests buf = decode_loop (suc (length buf)) buf

module _ (p : ServerParam) where
  -- `serverReadDone`: the parked buffer is read into when the count of buffers comes down to half the
  -- maximum. That read is taken to start: after a failure the code would lock again a mutex it holds.
  unfoldable pub read_done : SConnection → SConnection
  read_done c =
      let left = c.read_counter - 1 in
      let c₁ = record c { read_counter = left } in
      if left == p.max_read_buffer_counter / 2
      then (elim c.to_read_buf [
        | none ↦ c₁
        | some b ↦ record c₁ { reading = some b; to_read_buf = none }
      ])
      else c₁

  -- `serverFreeReadBuffer`; on a buffer that was freed it uses freed memory.
  unfoldable pub free_read_buffer : ℕ → SConnection → Outcome SConnection
  unfolding read_done set_reference
  free_read_buffer b c =
      let left = c.reference b - 1 in
      let c₁ = record c { reference = set_reference c.reference b left } in
      if c.reference b == 0 then aborted else if left == 0 then ok (read_done c₁) else ok c₁

  -- The connection's `read` into the buffer `b`; `rc` is what it returns. After a failure the code
  -- gives up two references.
  unfoldable pub read_into : ℕ → Bool → SConnection → Outcome SConnection
  unfolding free_read_buffer
  read_into b true c = ok (record c { reading = some b })
  read_into b false c = free_read_buffer b c >>= free_read_buffer b

  -- A buffer that was made counts, and waits if it is the last that may be; no other thread frees a
  -- buffer in between.
  unfoldable pub park_or_read : ℕ → Bool → SConnection → Outcome SConnection
  unfolding read_into
  park_or_read b rc c =
      let c₁ = record c { read_counter = c.read_counter + 1 } in
      let parked = elim c.to_read_buf as (λ _. Outcome SConnection) [
        | none ↦ ok (record c₁ { to_read_buf = some b })
        | some _ ↦ aborted
      ] in
      if c₁.read_counter == p.max_read_buffer_counter then parked else read_into b rc c₁

  -- `serverRead` on the buffer `b`, whose unprocessed bytes are the content. In a new buffer they are
  -- copied to the start.
  unfoldable pub server_read : ℕ → Bool → SConnection → Outcome SConnection
  unfolding free_read_buffer set_reference read_into park_or_read
  server_read b rc c =
      let fresh = c.next_buffer in
      let made = record c {
        reference = set_reference c.reference fresh 1;
        next_buffer = suc fresh;
        processed = 0;
      } in
      if ltb (c.processed + length c.content) p.read_buffer_size
      then read_into b rc c
      else (free_read_buffer b made >>= park_or_read fresh rc)

  -- `n` requests from the buffer `b` go to the worker pool; each holds the buffer.
  unfoldable pub queue_requests : ℕ → ℕ → SConnection → SConnection
  unfolding set_reference
  queue_requests b n c = record c {
    reference = set_reference c.reference b (c.reference b + n);
    inflight = replicate n b ++ c.inflight;
    received_request_counter = c.received_request_counter + n;
  }

  -- The way out of `serverReadCallback`: its own reference goes, and on an error the reader's too.
  unfoldable pub read_out : ℕ → Bool → SConnection → Outcome SConnection
  unfolding free_read_buffer
  read_out b true c = free_read_buffer b c
  read_out b false c = free_read_buffer b c >>= free_read_buffer b

  -- The part of `serverReadCallback` that follows on the decoding of the bytes in the buffer `b`, to
  -- which the read added `size` bytes.
  unfoldable pub after_decoding {ℓ} :
      {R : Type ℓ} → ℕ → ℕ → Bool → SConnection → Decoded R → Outcome SConnection
  unfolding set_reference queue_requests server_read read_out
  after_decoding b size rc c d =
      let consumed = length c.content + size - length d.left in
      let held = record c {
        reference = set_reference c.reference b (c.reference b + 1);
        reading = none;
      } in
      let queued = queue_requests b (length d.requests) held in
      let c₁ = record queued { processed = c.processed + consumed; content = d.left } in
      if d.is_open then (server_read b rc c₁ >>= read_out b true) else read_out b false c₁

  -- `serverReadCallback` for a read into `b` that brought `bytes`, where the worker pool takes all jobs:
  -- the requests that go to the pool, and the connection. `rc` is what the connection's `read` returns.
  unfoldable pub server_read_callback {ℓ} :
      {R : Type ℓ}
      → List (Option (ℕ → Option (Reader R)))
      → ℕ
      → Bytes
      → Bool
      → SConnection
      → Outcome (List R × SConnection)
  unfolding decode_requests after_decoding
  server_read_callback request_handler b bytes rc c = do
    d ← decode_requests request_handler (c.content ++ bytes)
    c' ← after_decoding b (length bytes) rc c d
    ok (d.requests, c')

  -- `serverReadCallback` for such a read, where the worker pool takes n jobs and refuses the next: that
  -- request gives its reference back and counts as answered, and the connection is closed.
  unfoldable pub server_read_refused {ℓ} :
      {R : Type ℓ}
      → List (Option (ℕ → Option (Reader R)))
      → ℕ
      → Bytes
      → ℕ
      → SConnection
      → Outcome (List R × SConnection)
  unfolding decode_refused after_decoding
  server_read_refused {R = R} request_handler b bytes n c = do
    (requests, left) ← decode_refused request_handler n (c.content ++ bytes)
    let d : Decoded R = record { requests = requests; left = left; is_open = false }
    c' ← after_decoding b (length bytes) true c d
    ok (
      requests,
      record c' {
        received_request_counter = c'.received_request_counter + 1;
        sent_request_counter = c'.sent_request_counter + 1;
      },
    )

  -- `serverReadCallback` for a read that failed
  unfoldable pub server_read_failed : ℕ → SConnection → Outcome SConnection
  unfolding free_read_buffer
  server_read_failed b c = free_read_buffer b (record c { reading = none })

  -- `serverDoActionCallback` for a request from the buffer `b`; `rc` is what the connection's `write`
  -- returns.
  unfoldable pub server_do_action_callback : ℕ → Bool → SConnection → Outcome SConnection
  unfolding free_read_buffer
  server_do_action_callback b rc c =
      let c₁ = record c { inflight = drop_one b c.inflight; write_counter = c.write_counter + 1 } in
      let c₂ = record c₁ {
        sent_request_counter = c.sent_request_counter + 1;
        write_done_counter = c.write_done_counter + 1;
      } in
      free_read_buffer b (if rc then c₁ else c₂)

-- `serverWriteCallback`
unfoldable pub server_write_callback : SConnection → SConnection
server_write_callback c = record c {
  write_done_counter = c.write_done_counter + 1;
  sent_request_counter = c.sent_request_counter + 1;
}

-- The first part of `serverOnClose`: a parked buffer is freed.
unfoldable pub server_on_close : SConnection → SConnection
unfolding set_reference
server_on_close c = elim c.to_read_buf [
  | none ↦ c
  | some b ↦ record c {
    reference = set_reference c.reference b 0;
    to_read_buf = none;
    read_counter = c.read_counter - 1;
  }
]
