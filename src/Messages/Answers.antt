-- ===== src/Messages/Answers.antt =====
-- What each request that the monitor answers brings back to its sender.
use muti.Common.{ℕ, ◌<◌, ◌≡◌, refl, ap, ◌∙◌, sym, [], ◌++◌, append-nil, ok}
use muti.Wire.{Bytes, u32_bytes}
use muti.Wire.Laws.{read_u32-u32_bytes}
use muti.Wire.Long.{u64_bytes, read_u64_low-u64_bytes}
use muti.HashMap.{Map}
use muti.ClusterMap.{ObjectServiceMap, ServiceRef, normal}
use muti.ClusterMap.Index.{Indexes}
use muti.ClusterMap.Codec.{cluster_map_parse_object_service_map}
use muti.ClusterMap.Codec.Encoding.{
  IsU32, IsWellFormed, FitsLength, map_bytes, cluster_map_dump-map_bytes,
}
use muti.ClusterMap.Codec.RoundTrip.{cluster_map_parse-map_bytes}
use muti.Monitor.{
  KeepAliveRequest, KeepAliveResponse, cluster_action_status,
  cluster_action_keep_alive_object_service,
}
use muti.Messages.{
  RequestHeader, ResponseHeader, latest_version, kept_alive, whole_status, plain, keep_alive,
  cluster_request_id, get_object_service_map_latest_version, keep_alive_object_service,
  keep_alive_client, cluster_status, response_header_bytes, encode_response,
  cluster_response_encoder, encode_status, read_version, read_kept_alive, read_status,
  cluster_response_decoder, cluster_action,
}
use muti.Messages.RoundTrip.{
  IsKeepAlive, version_request, service_request, client_request, status_request,
}
use muti.Messages.Exchange.{IsClusterHeader, Answers, Answers-of, decode_with-answer}

-- The header of a good response.
abbrev good : RequestHeader → ResponseHeader
good h = record { error_id = 0; sequence = h.sequence }

read_version-bytes : (v : ℕ) → IsU32 v → read_version (u32_bytes v) ≡ ok (latest_version v, [])
unfolding read_version
read_version-bytes v h = rw (sym (append-nil (u32_bytes v)), read_u32-u32_bytes v [] h) refl

-- The request for the latest version, and the keep-alive of a client, bring back the version of the
-- monitor's map and leave the map as it is.
pub version-Answers :
    (m : ObjectServiceMap) (h h' : RequestHeader) (rest : Bytes)
    → IsClusterHeader h
    → IsClusterHeader h'
    → h.request_id ≡ 0
    → h'.request_id ≡ 5
    → IsU32 m.version
    → Answers get_object_service_map_latest_version m
        (record { header = h; body = plain })
        rest
        (latest_version m.version)
        m
      × Answers keep_alive_client m
          (record { header = h'; body = plain })
          rest
          (latest_version m.version)
          m
unfolding cluster_request_id cluster_action encode_response cluster_response_encoder
    cluster_response_decoder
version-Answers m h h' rest v v' e e' small = (
  Answers-of get_object_service_map_latest_version m m (record { header = h; body = plain }) rest
      (response_header_bytes (good h) ++ u32_bytes m.version) (latest_version m.version)
      (latest_version m.version) v version_request (rw e refl) refl refl
      (decode_with-answer read_version h (latest_version m.version) (u32_bytes m.version) []
        v.sequence (read_version-bytes m.version small)),
  Answers-of keep_alive_client m m (record { header = h'; body = plain }) rest
      (response_header_bytes (good h') ++ u32_bytes m.version) (latest_version m.version)
      (latest_version m.version) v' client_request (rw e' refl) refl refl
      (decode_with-answer read_version h' (latest_version m.version) (u32_bytes m.version) []
        v'.sequence (read_version-bytes m.version small)),
)

-- The parser at the end of a buffer.
parse_at_end :
    (m : ObjectServiceMap)
    → IsWellFormed m
    → (os_map : Map ServiceRef) × (cluster_map_parse_object_service_map (map_bytes m)
        ≡ ok (record m { status = normal; os_map = os_map }, []))
      × (0 < m.object_service_length → Indexes os_map m.object_service_list)
parse_at_end m v =
    let (os_map, parsed, index) = cluster_map_parse-map_bytes m [] v in
    (
      os_map,
      ap cluster_map_parse_object_service_map (sym (append-nil (map_bytes m))) ∙ parsed,
      index,
    )

-- The request for the status of the cluster brings back zeros and the monitor's map, under the same
-- conditions on the map; the monitor's map stays as it is.
pub status-Answers :
    (m : ObjectServiceMap) (h : RequestHeader) (rest : Bytes)
    → IsClusterHeader h
    → h.request_id ≡ 7
    → IsWellFormed m
    → FitsLength m
    → 0 < m.object_service_length
    → (os_map : Map ServiceRef) × Indexes os_map m.object_service_list
      × Answers cluster_status m
          (record { header = h; body = plain })
          rest
          (whole_status (cluster_action_status (record m { status = normal; os_map = os_map })))
          m
unfolding cluster_request_id cluster_action encode_response cluster_response_encoder
    cluster_response_decoder encode_status read_status cluster_action_status
status-Answers m h rest v e well fits pos =
    let (os_map, parsed, index) = parse_at_end m well in
    let (size, dumped) = cluster_map_dump-map_bytes m well fits in
    let zeros = u64_bytes 0 ++ (u64_bytes 0 ++ (u64_bytes 0 ++ map_bytes m)) in
    (
      os_map,
      index pos,
      Answers-of cluster_status m m (record { header = h; body = plain }) rest
          (response_header_bytes (good h) ++ zeros) (whole_status (cluster_action_status m))
          (whole_status (cluster_action_status (record m { status = normal; os_map = os_map }))) v
          status_request (rw e refl) refl (rw dumped refl)
          (decode_with-answer read_status h _ zeros [] v.sequence (
            rw
              (
                read_u64_low-u64_bytes 0 (u64_bytes 0 ++ (u64_bytes 0 ++ map_bytes m)),
                read_u64_low-u64_bytes 0 (u64_bytes 0 ++ map_bytes m),
                read_u64_low-u64_bytes 0 (map_bytes m),
                parsed,
              )
              refl)),
    )

read_kept_alive-bytes :
    (k : KeepAliveResponse)
    → IsU32 k.version
    → IsU32 k.status
    → read_kept_alive (u32_bytes k.version ++ u32_bytes k.status) ≡ ok (kept_alive k, [])
unfolding read_kept_alive
read_kept_alive-bytes k v s =
    rw
      (
        read_u32-u32_bytes k.version (u32_bytes k.status) v,
        sym (append-nil (u32_bytes k.status)),
        read_u32-u32_bytes k.status [] s,
      )
      refl

-- A keep-alive of an object service, with the answer that the action gives.
pub kept_alive-Answers :
    (m m' : ObjectServiceMap) (h : RequestHeader) (k : KeepAliveRequest) (reply : KeepAliveResponse)
    (rest : Bytes)
    → IsClusterHeader h
    → h.request_id ≡ 4
    → IsKeepAlive k
    → IsU32 reply.version
    → IsU32 reply.status
    → cluster_action_keep_alive_object_service m k ≡ ok (reply, m')
    → Answers keep_alive_object_service m
        (record { header = h; body = keep_alive k })
        rest
        (kept_alive reply)
        m'
unfolding cluster_request_id cluster_action encode_response cluster_response_encoder
    cluster_response_decoder
kept_alive-Answers m m' h k reply rest v e w version status run =
    Answers-of keep_alive_object_service m m' (record { header = h; body = keep_alive k }) rest
      (response_header_bytes (good h) ++ (u32_bytes reply.version ++ u32_bytes reply.status))
      (kept_alive reply) (kept_alive reply) v (service_request k w) (rw e refl) (rw run refl) refl
      (decode_with-answer read_kept_alive h (kept_alive reply) _ [] v.sequence
        (read_kept_alive-bytes reply version status))
