-- ===== src/Messages/RoundTrip.antt =====
-- Messages that were encoded decode to themselves.
use muti.Common.{◌^◌, ◌<◌, ◌≡◌, refl, ap, ◌∙◌, ◌++◌, append_assoc, ok}
use muti.Wire.{Bytes, u16_bytes, u32_bytes}
use muti.Wire.Laws.{read_u16-u16_bytes, read_u32-u32_bytes}
use muti.ClusterMap.Codec.Encoding.{IsU32}
use muti.Monitor.{KeepAliveRequest}
use muti.Messages.{
  RequestHeader, RequestBody, plain, keep_alive, ClusterRequest, ClusterRequestId,
  request_header_bytes, keep_alive_bytes, get_object_service_map_latest_version,
  get_latest_object_service_map, keep_alive_object_service, keep_alive_client, cluster_status, stop,
  cluster_request_encoder, cluster_request_decoder, read_request_header, read_plain,
  read_keep_alive, read_request_ids,
}

pub record IsRequestHeader (h : RequestHeader) : Type 0 where
  pub resource_id : h.resource_id < 2 ^ 16
  pub request_id : h.request_id < 2 ^ 16
  pub sequence : IsU32 h.sequence

pub record IsKeepAlive (k : KeepAliveRequest) : Type 0 where
  pub version : IsU32 k.version
  pub os_id : IsU32 k.os_id
  pub status : IsU32 k.status

-- The requests that have an encoder, with the body that it expects.
pub data IsSendable : ClusterRequestId → RequestBody → Type 0 where
  version_request : IsSendable get_object_service_map_latest_version plain
  map_request : IsSendable get_latest_object_service_map plain
  service_request :
      (k : KeepAliveRequest) → IsKeepAlive k → IsSendable keep_alive_object_service (keep_alive k)
  client_request : IsSendable keep_alive_client plain
  status_request : IsSendable cluster_status plain
  stop_request : IsSendable stop plain

pub read_request_header-bytes :
    (h : RequestHeader) (rest : Bytes)
    → IsRequestHeader h
    → read_request_header (request_header_bytes h ++ rest) ≡ ok (h, rest)
unfolding read_request_header request_header_bytes
read_request_header-bytes h rest v = simp (
  append_assoc,
  read_u16-u16_bytes h.resource_id (u16_bytes h.request_id ++ (u32_bytes h.sequence ++ rest))
      v.resource_id,
  read_u16-u16_bytes h.request_id (u32_bytes h.sequence ++ rest) v.request_id,
  read_u32-u32_bytes h.sequence rest v.sequence,
)

read_plain-bytes :
    (h : RequestHeader) (rest : Bytes)
    → IsRequestHeader h
    → read_plain (request_header_bytes h ++ rest) ≡ ok (record { header = h; body = plain }, rest)
unfolding read_plain
read_plain-bytes h rest v = rw (read_request_header-bytes h rest v) refl

read_keep_alive-bytes :
    (h : RequestHeader) (k : KeepAliveRequest) (rest : Bytes)
    → IsRequestHeader h
    → IsKeepAlive k
    → read_keep_alive ((request_header_bytes h ++ keep_alive_bytes k) ++ rest)
      ≡ ok (record { header = h; body = keep_alive k }, rest)
unfolding read_keep_alive keep_alive_bytes
read_keep_alive-bytes h k rest v w = simp (
  append_assoc,
  read_request_header-bytes h
      (u32_bytes k.version ++ (u32_bytes k.os_id ++ (u32_bytes k.status ++ rest))) v,
  read_u32-u32_bytes k.version (u32_bytes k.os_id ++ (u32_bytes k.status ++ rest)) w.version,
  read_u32-u32_bytes k.os_id (u32_bytes k.status ++ rest) w.os_id,
  read_u32-u32_bytes k.status rest w.status,
)

-- The server finds the ids of a request at its front.
pub read_request_ids-bytes :
    (h : RequestHeader) (rest : Bytes)
    → IsRequestHeader h
    → read_request_ids (request_header_bytes h ++ rest) ≡ ok (h.resource_id, h.request_id)
unfolding read_request_ids request_header_bytes
read_request_ids-bytes h rest v = simp (
  append_assoc,
  read_u16-u16_bytes h.resource_id (u16_bytes h.request_id ++ (u32_bytes h.sequence ++ rest))
      v.resource_id,
  read_u16-u16_bytes h.request_id (u32_bytes h.sequence ++ rest) v.request_id,
)

abbrev RoundTrip : ClusterRequestId → RequestHeader → RequestBody → Bytes → Type 0
RoundTrip id h b rest =
    (buf : Bytes) × (cluster_request_encoder id (record { header = h; body = b }) ≡ ok buf)
    × (cluster_request_decoder id (buf ++ rest) ≡ ok (record { header = h; body = b }, rest))
    × (read_request_ids (buf ++ rest) ≡ ok (h.resource_id, h.request_id))

plain_request :
    (id : ClusterRequestId) (h : RequestHeader) (rest : Bytes)
    → IsRequestHeader h
    → (cluster_request_encoder id (record { header = h; body = plain })
        ≡ ok (request_header_bytes h))
    → (cluster_request_decoder id (request_header_bytes h ++ rest)
        ≡ read_plain (request_header_bytes h ++ rest))
    → RoundTrip id h plain rest
plain_request id h rest v e f =
    (request_header_bytes h, e, f ∙ read_plain-bytes h rest v, read_request_ids-bytes h rest v)

round_trip :
    {id : ClusterRequestId} {b : RequestBody} (h : RequestHeader) (rest : Bytes)
    → IsRequestHeader h
    → IsSendable id b
    → RoundTrip id h b rest
unfolding cluster_request_encoder cluster_request_decoder
round_trip h rest v version_request =
    plain_request get_object_service_map_latest_version h rest v refl refl
round_trip h rest v map_request = plain_request get_latest_object_service_map h rest v refl refl
round_trip h rest v (service_request k w) = (
  request_header_bytes h ++ keep_alive_bytes k,
  refl,
  read_keep_alive-bytes h k rest v w,
  ap read_request_ids (append_assoc (request_header_bytes h) (keep_alive_bytes k) rest)
      ∙ (read_request_ids-bytes h (keep_alive_bytes k ++ rest) v),
)
round_trip h rest v client_request = plain_request keep_alive_client h rest v refl refl
round_trip h rest v status_request = plain_request cluster_status h rest v refl refl
round_trip h rest v stop_request = plain_request stop h rest v refl refl

-- A request with fields in range, whose body is the one that its id's encoder expects, is encoded to
-- bytes from whose front the decoder of that id reads the request and leaves the rest, and the server
-- reads the ids of the request and of its resource.
pub cluster_request_decoder-encoder :
    (id : ClusterRequestId) (r : ClusterRequest) (rest : Bytes)
    → IsRequestHeader r.header
    → IsSendable id r.body
    → (buf : Bytes) × (cluster_request_encoder id r ≡ ok buf)
      × (cluster_request_decoder id (buf ++ rest) ≡ ok (r, rest))
      × (read_request_ids (buf ++ rest) ≡ ok (r.header.resource_id, r.header.request_id))
cluster_request_decoder-encoder id r rest v s = round_trip r.header rest v s
