-- ===== src/Messages.antt =====
-- The requests and the responses of the cluster resource, services/mon/share/Cluster.h: how the
-- client encodes requests and decodes responses (services/mon/client/cluster/ClusterSender.c with the
-- macros of h/client/RequestSender.h), and how the monitor decodes requests and encodes responses
-- (services/mon/server/cluster/ClusterHandler.c, corecode/server/ErrorResponseEncoder.c).
-- A table of functions at a request id is a function by clauses on the id; an id past the table's end
-- reads outside of it. A request or a response is its header with its body; a cast reads the body
-- that the table expects, and another body is out of bounds.
pub mod RoundTrip
pub mod Exchange
pub mod Answers
pub mod KeepAlive
use muti.Common.{
  ℕ, List, [], ◌∷◌, at, ◌++◌, Outcome, ok, failed, aborted, ◌>>=◌, ltb, ◌==◌, if◌then◌else◌,
}
use muti.Wire.{Bytes, Reader, read_u16, read_u32, u16_bytes, u32_bytes}
use muti.Wire.Long.{u64_bytes, read_u64_low}
use muti.ClusterMap.{ObjectServiceMap}
use muti.ClusterMap.Codec.{
  cluster_map_dump_object_service_map, cluster_map_dump_object_service_map_length,
  cluster_map_parse_object_service_map,
}
use muti.Monitor.{
  KeepAliveRequest, KeepAliveResponse, ClusterStatus, cluster_action_keep_alive_object_service,
  cluster_action_get_object_service_map_latest_version, cluster_action_keep_alive_client,
  cluster_action_status,
}

-- `ClusterRequestId`
pub data ClusterRequestId : Type 0 where
  get_object_service_map_latest_version : ClusterRequestId
  get_latest_object_service_map : ClusterRequestId
  add_object_service : ClusterRequestId
  remove_object_service : ClusterRequestId
  keep_alive_object_service : ClusterRequestId
  keep_alive_client : ClusterRequestId
  get_object_service_map_change_log : ClusterRequestId
  cluster_status : ClusterRequestId
  stop : ClusterRequestId

-- The numbers of the enum, which are the places in each table: a number past the end is out of
-- bounds, since no code checks it.
unfoldable pub cluster_request_id : ℕ → Outcome ClusterRequestId
cluster_request_id = at (
    get_object_service_map_latest_version ∷ get_latest_object_service_map ∷ add_object_service
    ∷ remove_object_service ∷ keep_alive_object_service ∷ keep_alive_client
    ∷ get_object_service_map_change_log ∷ cluster_status ∷ stop ∷ [])

-- `Request`
pub record RequestHeader : Type 0 where
  pub resource_id : ℕ
  pub request_id : ℕ
  pub sequence : ℕ

-- `Response`; `error_id` is an int32_t, as its bit pattern.
pub record ResponseHeader : Type 0 where
  pub error_id : ℕ
  pub sequence : ℕ

-- What follows the header.
pub data RequestBody : Type 0 where
  plain : RequestBody
  keep_alive : KeepAliveRequest → RequestBody

pub record ClusterRequest : Type 0 where
  pub header : RequestHeader
  pub body : RequestBody

pub data ResponseBody : Type 0 where
  empty : ResponseBody
  latest_version : ℕ → ResponseBody
  latest_map : ObjectServiceMap → ResponseBody
  kept_alive : KeepAliveResponse → ResponseBody
  whole_status : ClusterStatus → ResponseBody

pub record ClusterResponse : Type 0 where
  pub header : ResponseHeader
  pub body : ResponseBody

unfoldable pub request_header_bytes : RequestHeader → Bytes
request_header_bytes h = u16_bytes h.resource_id ++ (u16_bytes h.request_id ++ u32_bytes h.sequence)

unfoldable pub keep_alive_bytes : KeepAliveRequest → Bytes
keep_alive_bytes k = u32_bytes k.version ++ (u32_bytes k.os_id ++ u32_bytes k.status)

-- `ClusterRequestEncoder[request_id]`: the first bytes of the struct. The encoders of requests 2, 3
-- and 6 return true without a buffer.
unfoldable pub cluster_request_encoder : ClusterRequestId → ClusterRequest → Outcome Bytes
unfolding request_header_bytes keep_alive_bytes
cluster_request_encoder get_object_service_map_latest_version r = ok (request_header_bytes r.header)
cluster_request_encoder get_latest_object_service_map r = ok (request_header_bytes r.header)
cluster_request_encoder keep_alive_object_service r = elim r.body [
  | plain ↦ aborted
  | keep_alive k ↦ ok (request_header_bytes r.header ++ keep_alive_bytes k)
]
cluster_request_encoder keep_alive_client r = ok (request_header_bytes r.header)
cluster_request_encoder cluster_status r = ok (request_header_bytes r.header)
cluster_request_encoder stop r = ok (request_header_bytes r.header)
cluster_request_encoder _ r = aborted

unfoldable pub read_request_header : Reader RequestHeader
read_request_header buf = do
  (resource_id, buf₁) ← read_u16 buf
  (request_id, buf₂) ← read_u16 buf₁
  (sequence, buf₃) ← read_u32 buf₂
  ok (record { resource_id = resource_id; request_id = request_id; sequence = sequence }, buf₃)

unfoldable pub read_plain : Reader ClusterRequest
unfolding read_request_header
read_plain buf = do
  (header, buf₁) ← read_request_header buf
  ok (record { header = header; body = plain }, buf₁)

unfoldable pub read_keep_alive : Reader ClusterRequest
unfolding read_request_header
read_keep_alive buf = do
  (header, buf₁) ← read_request_header buf
  (v, buf₂) ← read_u32 buf₁
  (os_id, buf₃) ← read_u32 buf₂
  (stat, buf₄) ← read_u32 buf₃
  ok (
    record {
      header = header;
      body = keep_alive (record { version = v; os_id = os_id; status = stat });
    },
    buf₄,
  )

-- `ClusterRequestDecoder[request_id]`: the decoders of requests 2, 3 and 6 return NULL.
unfoldable pub cluster_request_decoder : ClusterRequestId → Reader ClusterRequest
unfolding read_plain read_keep_alive
cluster_request_decoder get_object_service_map_latest_version buf = read_plain buf
cluster_request_decoder get_latest_object_service_map buf = read_plain buf
cluster_request_decoder add_object_service buf = failed
cluster_request_decoder remove_object_service buf = failed
cluster_request_decoder keep_alive_object_service buf = read_keep_alive buf
cluster_request_decoder keep_alive_client buf = read_plain buf
cluster_request_decoder get_object_service_map_change_log buf = failed
cluster_request_decoder cluster_status buf = read_plain buf
cluster_request_decoder stop buf = read_plain buf

-- The resource id and the request id that the server finds at the start of the buffer.
unfoldable pub read_request_ids : Bytes → Outcome (ℕ × ℕ)
read_request_ids buf = do
  (resource_id, buf₁) ← read_u16 buf
  (request_id, buf₂) ← read_u16 buf₁
  ok (resource_id, request_id)

-- `request_handler[resource_id]` of the monitor, whose one entry has the tables of the cluster
-- resource: a larger resource id closes the connection, which is `failed`. The test is the code's, by
-- which the id 1 passes and is out of bounds.
unfoldable pub mon_handler : ℕ → Outcome (ℕ → Outcome ClusterRequestId)
mon_handler resource_id =
    if ltb 1 resource_id then failed else at (cluster_request_id ∷ []) resource_id

unfoldable pub response_header_bytes : ResponseHeader → Bytes
response_header_bytes h = u32_bytes h.error_id ++ u32_bytes h.sequence

-- `ClusterResponseEncoderGetLatestObjectServiceMap`
unfoldable pub encode_latest_map : ResponseHeader → ObjectServiceMap → Outcome Bytes
unfolding response_header_bytes
encode_latest_map header m = do
  os_map_buffer ←
      cluster_map_dump_object_service_map m (cluster_map_dump_object_service_map_length m)
  ok (response_header_bytes header ++ os_map_buffer)

-- `ClusterResponseEncoderStatus`
unfoldable pub encode_status : ResponseHeader → ClusterStatus → Outcome Bytes
unfolding response_header_bytes
encode_status header s = do
  os_map_buffer ←
      cluster_map_dump_object_service_map s.os_map
        (cluster_map_dump_object_service_map_length s.os_map)
  ok (
      response_header_bytes header
      ++ (u64_bytes s.total_objects ++ (u64_bytes s.used ++ (u64_bytes s.free ++ os_map_buffer))))

-- `ClusterResponseEncoder[request_id]`
unfoldable pub cluster_response_encoder : ClusterRequestId → ClusterResponse → Outcome Bytes
unfolding response_header_bytes encode_latest_map encode_status
cluster_response_encoder get_object_service_map_latest_version r = elim r.body [
  | latest_version v ↦ ok (response_header_bytes r.header ++ u32_bytes v)
  | _ ↦ aborted
]
cluster_response_encoder get_latest_object_service_map r = elim r.body [
  | latest_map m ↦ encode_latest_map r.header m
  | _ ↦ aborted
]
cluster_response_encoder keep_alive_object_service r = elim r.body [
  | kept_alive k ↦
      ok (response_header_bytes r.header ++ (u32_bytes k.version ++ u32_bytes k.status))
  | _ ↦ aborted
]
cluster_response_encoder keep_alive_client r = elim r.body [
  | latest_version v ↦ ok (response_header_bytes r.header ++ u32_bytes v)
  | _ ↦ aborted
]
cluster_response_encoder cluster_status r = elim r.body [
  | whole_status s ↦ encode_status r.header s
  | _ ↦ aborted
]
cluster_response_encoder stop r = ok (response_header_bytes r.header)
cluster_response_encoder _ r = aborted

-- `ErrorResponseEncoder` for an error, else the encoder of the request.
unfoldable pub encode_response : ClusterRequestId → ClusterResponse → Outcome Bytes
unfolding response_header_bytes cluster_response_encoder
encode_response request_id r =
    if r.header.error_id == 0
    then cluster_response_encoder request_id r
    else ok (response_header_bytes r.header)

unfoldable pub read_response_header : Reader ResponseHeader
read_response_header buf = do
  (error_id, buf₁) ← read_u32 buf
  (sequence, buf₂) ← read_u32 buf₁
  ok (record { error_id = error_id; sequence = sequence }, buf₂)

unfoldable pub read_version : Reader ResponseBody
read_version buf = do (v, buf₁) ← read_u32 buf; ok (latest_version v, buf₁)

-- The decoder of the latest map allocates the 8 bytes of `Response`, and stores the map that it parsed
-- behind these, out of their bounds.
unfoldable pub read_latest_map : Reader ResponseBody
read_latest_map buf = do (m, buf₁) ← cluster_map_parse_object_service_map buf; aborted

unfoldable pub read_kept_alive : Reader ResponseBody
read_kept_alive buf = do
  (v, buf₁) ← read_u32 buf
  (stat, buf₂) ← read_u32 buf₁
  ok (kept_alive (record { version = v; status = stat }), buf₂)

unfoldable pub read_status : Reader ResponseBody
read_status buf = do
  (total_objects, buf₁) ← read_u64_low buf
  (used, buf₂) ← read_u64_low buf₁
  (free, buf₃) ← read_u64_low buf₂
  (m, buf₄) ← cluster_map_parse_object_service_map buf₃
  ok (
    whole_status (record { total_objects = total_objects; used = used; free = free; os_map = m }),
    buf₄,
  )

-- `SENDER_RESPONSE_DECODER`, at what the decoder reads behind the header: behind an error there is
-- nothing.
unfoldable pub decode_with : Reader ResponseBody → Reader ClusterResponse
unfolding read_response_header
decode_with read_body buf = do
  (header, buf₁) ← read_response_header buf
  let whole = do (body, buf₂) ← read_body buf₁; ok (record { header = header; body = body }, buf₂)
  if header.error_id == 0 then whole else ok (record { header = header; body = empty }, buf₁)

-- `ClusterResponseDecoder[request_id]`: the decoders of requests 2, 3 and 6 return NULL.
unfoldable pub cluster_response_decoder : ClusterRequestId → Reader ClusterResponse
unfolding decode_with read_version read_latest_map read_kept_alive read_status
cluster_response_decoder get_object_service_map_latest_version buf = decode_with read_version buf
cluster_response_decoder get_latest_object_service_map buf = decode_with read_latest_map buf
cluster_response_decoder add_object_service buf = failed
cluster_response_decoder remove_object_service buf = failed
cluster_response_decoder keep_alive_object_service buf = decode_with read_kept_alive buf
cluster_response_decoder keep_alive_client buf = decode_with read_version buf
cluster_response_decoder get_object_service_map_change_log buf = failed
cluster_response_decoder cluster_status buf = decode_with read_status buf
cluster_response_decoder stop buf = decode_with (λ rest. ok (empty, rest)) buf

-- The header of every response.
abbrev pub answer : RequestHeader → ResponseBody → ClusterResponse
answer h body = record { header = record { error_id = 0; sequence = h.sequence }; body = body }

-- `ClusterActions[request_id]`: the response that an action passes to the callback, and the map that
-- it leaves. The actions of requests 2, 3 and 6 never answer, which is `failed`; the stop action
-- answers, and stops the service later.
unfoldable pub cluster_action :
    ClusterRequestId
    → ObjectServiceMap
    → ClusterRequest
    → Outcome (ClusterResponse × ObjectServiceMap)
unfolding cluster_action_keep_alive_object_service
    cluster_action_get_object_service_map_latest_version cluster_action_keep_alive_client
    cluster_action_status
cluster_action get_object_service_map_latest_version m r =
    ok
      (answer r.header (latest_version (cluster_action_get_object_service_map_latest_version m)), m)
cluster_action get_latest_object_service_map m r = ok (answer r.header (latest_map m), m)
cluster_action add_object_service m r = failed
cluster_action remove_object_service m r = failed
cluster_action keep_alive_object_service m r = elim r.body [
  | plain ↦ aborted
  | keep_alive k ↦ do
    (reply, m') ← cluster_action_keep_alive_object_service m k
    ok (answer r.header (kept_alive reply), m')
]
cluster_action keep_alive_client m r =
    ok (answer r.header (latest_version (cluster_action_keep_alive_client m)), m)
cluster_action get_object_service_map_change_log m r = failed
cluster_action cluster_status m r = ok (answer r.header (whole_status (cluster_action_status m)), m)
cluster_action stop m r = ok (answer r.header empty, m)
