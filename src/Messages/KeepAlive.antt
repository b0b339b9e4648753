-- ===== src/Messages/KeepAlive.antt =====
-- The keep-alive of an object service from end to end.
use muti.Common.{ℕ, ◌≡◌, some, none, ok, arith, get_elem?}
use muti.Wire.{Bytes}
use muti.ClusterMap.{ObjectService, ObjectServiceMap, ServiceRef, to_int, error}
use muti.ClusterMap.Index.{Indexes, locate}
use muti.ClusterMap.Codec.Encoding.{IsU32}
use muti.Monitor.{KeepAliveRequest, next_status, set_status}
use muti.Monitor.Laws.{
  AllMon, IsStatus, cluster_action_keep_alive_object_service-known,
  cluster_action_keep_alive_object_service-unknown,
}
use muti.Messages.{RequestHeader, kept_alive, keep_alive, keep_alive_object_service}
use muti.Messages.RoundTrip.{IsKeepAlive}
use muti.Messages.Exchange.{IsClusterHeader, Answers}
use muti.Messages.Answers.{kept_alive-Answers}

-- A service that the monitor's map has, under its index and with statuses that the monitor may hold,
-- reports a valid status to the cluster resource: what comes back is the version of the monitor's map
-- and the status that the tables give for the status that the monitor had, and the monitor's map has this status afterwards.
pub keep_alive-Answers-known :
    (m : ObjectServiceMap) (h : RequestHeader) (k : KeepAliveRequest) (rest : Bytes)
    (r : ServiceRef)
    → Indexes m.os_map m.object_service_list
    → AllMon m.object_service_list
    → IsU32 m.version
    → IsClusterHeader h
    → h.request_id ≡ 4
    → IsKeepAlive k
    → IsStatus k.status
    → locate k.os_id 0 m.object_service_list ≡ some r
    → (os : ObjectService) × (next : ℕ) × (get_elem? m.object_service_list r.place ≡ some os)
      × (next_status os.status k.status ≡ ok next)
      × Answers keep_alive_object_service m
          (record { header = h; body = keep_alive k })
          rest
          (kept_alive (record { version = m.version; status = next }))
          (set_status m r.place os next)
keep_alive-Answers-known m h k rest r index all version v e w valid there =
    let (os, next, place, reply, run, good, kept) =
      cluster_action_keep_alive_object_service-known m k r index all valid there in
    let small : IsU32 next = omega (arith, good.0) in
    (
      os,
      next,
      place,
      reply,
      kept_alive-Answers m (set_status m r.place os next) h k
          (record { version = m.version; status = next }) rest v e w version small run,
    )

-- A service that the monitor's map does not have reports a valid status to the cluster resource: what comes back is the
-- version of the monitor's map and the status error, and that map stays as it is.
pub keep_alive-Answers-unknown :
    (m : ObjectServiceMap) (h : RequestHeader) (k : KeepAliveRequest) (rest : Bytes)
    → Indexes m.os_map m.object_service_list
    → IsU32 m.version
    → IsClusterHeader h
    → h.request_id ≡ 4
    → IsKeepAlive k
    → IsStatus k.status
    → locate k.os_id 0 m.object_service_list ≡ none
    → Answers keep_alive_object_service m
        (record { header = h; body = keep_alive k })
        rest
        (kept_alive (record { version = m.version; status = to_int error }))
        m
keep_alive-Answers-unknown m h k rest index version v e w valid absent =
    kept_alive-Answers m m h k (record { version = m.version; status = to_int error }) rest v e w
      version (omega arith)
      (cluster_action_keep_alive_object_service-unknown m k index valid absent)
