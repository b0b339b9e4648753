-- ===== src/Messages/Exchange.antt =====
-- A request from end to end: what the client decodes from the monitor's answer, with the steps that
-- corecode/server/Server.c takes on a request between its decoder and its response's encoder.
use muti.Common.{ℕ, ◌<◌, ◌^◌, ◌≡◌, refl, [], ◌++◌, append_assoc, Outcome, ok, aborted, ◌>>=◌, arith}
use muti.Wire.{Bytes, u32_bytes}
use muti.Wire.Laws.{read_u32-u32_bytes}
use muti.ClusterMap.{ObjectServiceMap}
use muti.ClusterMap.Codec.Encoding.{IsU32}
use muti.Messages.{
  RequestHeader, ResponseHeader, ResponseBody, ClusterRequest, ClusterResponse, ClusterRequestId,
  cluster_request_id, cluster_request_encoder, cluster_request_decoder, read_request_ids,
  mon_handler, response_header_bytes, encode_response, read_response_header, decode_with,
  cluster_response_decoder, answer, cluster_action,
}
use muti.Messages.RoundTrip.{IsRequestHeader, IsSendable, cluster_request_decoder-encoder}

-- A request at the front of the buffer: the ids that are read off the buffer pick the handler, and the
-- decoder, the action and the encoder in its tables. The result is the answer's bytes, the map that the action leaves, and the
-- rest of the buffer.
unfoldable pub serve : ObjectServiceMap → Bytes → Outcome (Bytes × ObjectServiceMap × Bytes)
serve m buf = do
  (resource_id, request_id) ← read_request_ids buf
  handler ← mon_handler resource_id
  id ← handler request_id
  (request, rest) ← cluster_request_decoder id buf
  (response, m') ← cluster_action id m request
  out ← encode_response id response
  ok (out, m', rest)

pub read_response_header-bytes :
    (h : ResponseHeader) (rest : Bytes)
    → IsU32 h.error_id
    → IsU32 h.sequence
    → read_response_header (response_header_bytes h ++ rest) ≡ ok (h, rest)
unfolding read_response_header response_header_bytes
read_response_header-bytes h rest e s = simp (
  append_assoc,
  read_u32-u32_bytes h.error_id (u32_bytes h.sequence ++ rest) e,
  read_u32-u32_bytes h.sequence rest s,
)

-- The decoder of a good response reads the body behind the header.
pub decode_with-answer :
    (read_body : Bytes → Outcome (ResponseBody × Bytes)) (h : RequestHeader) (body : ResponseBody)
    (bytes rest : Bytes)
    → IsU32 h.sequence
    → read_body bytes ≡ ok (body, rest)
    → decode_with read_body
        (response_header_bytes (record { error_id = 0; sequence = h.sequence }) ++ bytes)
      ≡ ok (answer h body, rest)
unfolding decode_with
decode_with-answer read_body h body bytes rest s e =
    rw
      (
        read_response_header-bytes (record { error_id = 0; sequence = h.sequence }) bytes
            (omega arith) s,
        e,
      )
      refl

-- A decoder of the body that stops the process.
pub decode_with-aborted :
    (read_body : Bytes → Outcome (ResponseBody × Bytes)) (sequence : ℕ) (bytes : Bytes)
    → IsU32 sequence
    → read_body bytes ≡ aborted
    → decode_with read_body
        (response_header_bytes (record { error_id = 0; sequence = sequence }) ++ bytes)
      ≡ aborted
unfolding decode_with
decode_with-aborted read_body sequence bytes s e =
    rw
      (
        read_response_header-bytes (record { error_id = 0; sequence = sequence }) bytes
            (omega arith) s,
        e,
      )
      refl

-- What the server does with an encoded request.
serve_request :
    (id : ClusterRequestId) (m m' : ObjectServiceMap) (r : ClusterRequest)
    (response : ClusterResponse) (buf out rest : Bytes)
    → r.header.resource_id ≡ 0
    → cluster_request_id r.header.request_id ≡ ok id
    → read_request_ids (buf ++ rest) ≡ ok (r.header.resource_id, r.header.request_id)
    → cluster_request_decoder id (buf ++ rest) ≡ ok (r, rest)
    → cluster_action id m r ≡ ok (response, m')
    → encode_response id response ≡ ok out
    → serve m (buf ++ rest) ≡ ok (out, m', rest)
unfolding serve mon_handler
serve_request id m m' r response buf out rest cluster known read decoded acted encoded =
    rw (read, cluster, known, decoded, acted, encoded) refl

-- A header of a request of the cluster resource, with fields in range.
pub record IsClusterHeader (h : RequestHeader) : Type 0 where
  pub resource_id : h.resource_id ≡ 0
  pub request_id : h.request_id < 2 ^ 16
  pub sequence : IsU32 h.sequence

IsClusterHeader-IsRequestHeader : {h : RequestHeader} → IsClusterHeader h → IsRequestHeader h
IsClusterHeader-IsRequestHeader v = record {
  resource_id = omega (arith, v.resource_id);
  request_id = v.request_id;
  sequence = v.sequence;
}

-- What the client gets back for a request: the client encodes it, the monitor serves the bytes at the
-- front of a buffer, and the client decodes what the monitor sends, all of it.
pub record Answers (id : ClusterRequestId) (m : ObjectServiceMap) (r : ClusterRequest)
    (rest : Bytes) (body : ResponseBody) (m' : ObjectServiceMap) : Type 0 where
  pub request : Bytes
  pub response : Bytes
  pub sent : cluster_request_encoder id r ≡ ok request
  pub served : serve m (request ++ rest) ≡ ok (response, m', rest)
  pub received : cluster_response_decoder id response ≡ ok (answer r.header body, [])

-- The request of a client goes out, and the monitor serves it.
pub request-served :
    (id : ClusterRequestId) (m m' : ObjectServiceMap) (r : ClusterRequest) (rest out : Bytes)
    (said : ResponseBody)
    → IsClusterHeader r.header
    → IsSendable id r.body
    → cluster_request_id r.header.request_id ≡ ok id
    → cluster_action id m r ≡ ok (answer r.header said, m')
    → encode_response id (answer r.header said) ≡ ok out
    → (request : Bytes) × (cluster_request_encoder id r ≡ ok request)
      × (serve m (request ++ rest) ≡ ok (out, m', rest))
request-served id m m' r rest out said v s known acted encoded =
    let (buf, sent, read, found) =
      cluster_request_decoder-encoder id r rest (IsClusterHeader-IsRequestHeader v) s in
    (
      buf,
      sent,
      serve_request id m m' r (answer r.header said) buf out rest v.resource_id known found read
          acted encoded,
    )

pub Answers-of :
    (id : ClusterRequestId) (m m' : ObjectServiceMap) (r : ClusterRequest) (rest out : Bytes)
    (said heard : ResponseBody)
    → IsClusterHeader r.header
    → IsSendable id r.body
    → cluster_request_id r.header.request_id ≡ ok id
    → cluster_action id m r ≡ ok (answer r.header said, m')
    → encode_response id (answer r.header said) ≡ ok out
    → cluster_response_decoder id out ≡ ok (answer r.header heard, [])
    → Answers id m r rest heard m'
Answers-of id m m' r rest out said heard v s known acted encoded decoded =
    let (buf, sent, served) = request-served id m m' r rest out said v s known acted encoded in
    record { request = buf; response = out; sent = sent; served = served; received = decoded }
