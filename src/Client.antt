-- ===== src/Client.antt =====
-- corecode/client/Client.c: requests that wait for their responses, by sequence number, and the loop
-- over what was read. The decoders are those of the cluster resource.
-- The array of lists of `ClientPrivate` is a function from the index: the index is a number below the
-- length of the array. Each access of a list is under its lock. The read buffer is the bytes from
-- `processed_buffer_start` on, which `clientRead` keeps for the next read.
pub mod Waiting
pub mod Headers
pub mod Delivery
pub mod Reports
pub mod Handlers
pub mod Runs
use muti.Common.{
  ℕ, zero, suc, ◌+◌, ◌%◌, ◌^◌, bit_and, List, [], ◌∷◌, ◌++◌, length, Bool, true, false, Option,
  none, some, Outcome, ok, failed, aborted, ◌>>=◌, at, ltb, ◌==◌, if◌then◌else◌,
}
use muti.Wire.{Bytes, Reader}
use muti.Messages.{
  ClusterRequest, ClusterResponse, ClusterRequestId, empty, cluster_request_id,
  cluster_request_encoder, cluster_response_decoder, read_response_header,
}

-- `ClientSendArg`; `arg` stands for the callback with its argument.
pub record ClientSendArg : Type 0 where
  pub sequence : ℕ
  pub request_id : ClusterRequestId
  pub arg : ℕ

-- `ClientPrivate`; `conn` says whether there is a connection.
pub record Client : Type 0 where
  pub conn : Bool
  pub sequence : ℕ
  pub waiting_hash_slots : ℕ → List ClientSendArg

-- The client that `initClient` returns, when the connection is made.
unfoldable pub init_client : Client
init_client = record { conn = true; sequence = 1022; waiting_hash_slots = λ _. [] }

-- `sequence & (CLIENT_WAITING_HASH_LEN - 1)`
pub hash_of : ℕ → ℕ
hash_of sequence = bit_and sequence 127

unfoldable pub find : ℕ → List ClientSendArg → Option ClientSendArg
find q [] = none
find q (a ∷ slot) = if a.sequence == q then some a else find q slot

-- `listDel` of what `find` finds
unfoldable pub unlink : ℕ → List ClientSendArg → List ClientSendArg
unlink q [] = []
unlink q (a ∷ slot) = if a.sequence == q then slot else a ∷ unlink q slot

unfoldable pub set_slot : (ℕ → List ClientSendArg) → ℕ → List ClientSendArg → ℕ → List ClientSendArg
set_slot slots i slot j = if j == i then slot else slots j

-- `request_sender[resource_id]` for the senders of the monitor, `MonSenders`, whose one entry has the
-- tables of the cluster resource.
unfoldable pub mon_sender : ℕ → Outcome (ℕ → Outcome ClusterRequestId)
mon_sender = at (cluster_request_id ∷ [])

-- `clientSendRequest`: the request goes out under the next sequence number; `rc` is what the
-- connection's `write` returns. The result is what was written, or none for false. The encoders of the
-- cluster resource never return false. After a failed write the entry at the end of its list is
-- deleted, which leaves the list as it was.
unfoldable pub client_send_request :
    Client → ClusterRequest → ℕ → Bool → Outcome (Option Bytes × Client)
unfolding set_slot hash_of
client_send_request c req arg rc =
    let sequence = (c.sequence + 1) % 2 ^ 32 in
    let i = hash_of sequence in
    let send = do
      sender ← mon_sender req.header.resource_id
      id ← sender req.header.request_id
      wbuf ←
          cluster_request_encoder id
            (record req { header = record req.header { sequence = sequence } })
      let send_arg : ClientSendArg = record { sequence = sequence; request_id = id; arg = arg }
      let slots = set_slot c.waiting_hash_slots i (c.waiting_hash_slots i ++ send_arg ∷ [])
      ok (
          if rc
          then (some wbuf, record c { sequence = sequence; waiting_hash_slots = slots })
          else (none, record c { sequence = sequence }))
    in if c.conn then send else ok (none, c)

-- `ErrorResponseDecoder`
unfoldable pub error_response_decoder : Reader ClusterResponse
unfolding read_response_header
error_response_decoder buf = do
  (header, rest) ← read_response_header buf
  ok (record { header = header; body = empty }, rest)

-- What a read leaves: the requests whose job was queued, with their responses; the client; the bytes
-- that stay in the buffer; and whether the connection stays open.
pub record Received : Type 0 where
  pub delivered : List (ClientSendArg × ClusterResponse)
  pub client : Client
  pub left : Bytes
  pub is_open : Bool

-- The loop of `clientReadCallback`.
unfoldable pub client_read : ℕ → Client → Bytes → Outcome Received
unfolding find unlink set_slot hash_of error_response_decoder
client_read zero c buf = aborted
client_read (suc fuel) c buf =
    let step = do
      (resp, _) ← read_response_header buf
      let i = hash_of resp.sequence
      let slot = c.waiting_hash_slots i
      elim (find resp.sequence slot) [
        | none ↦ ok (record { delivered = []; client = c; left = buf; is_open = false })
        | some send_arg ↦
            let taken = set_slot c.waiting_hash_slots i (unlink resp.sequence slot) in
            let decoded =
              if resp.error_id == 0
              then cluster_response_decoder send_arg.request_id buf
              else error_response_decoder buf in
            elim decoded [
              | ok (response, rest) ↦ do
                r ← client_read fuel (record c { waiting_hash_slots = taken }) rest
                ok (record r { delivered = (send_arg, response) ∷ r.delivered })
              | failed ↦
                  let back = set_slot taken i (send_arg ∷ taken i) in
                  ok (record {
                    delivered = [];
                    client = record c { waiting_hash_slots = back };
                    left = buf;
                    is_open = true;
                  })
              | aborted ↦ aborted
            ]
      ]
    in if ltb (length buf) 8
      then ok (record { delivered = []; client = c; left = buf; is_open = true })
      else step
