-- ===== src/Agent/Joining.antt =====
-- An object service and the monitor: what happens to a service that asks to join, and to one that is
-- ready after its synchronisation.
use muti.Common.{
  ℕ, ◌+◌, ◌-◌, ◌≡◌, ◌≤◌, zero, suc, refl, sym, subst, true, some, ok, arith, get_elem?,
}
use muti.Wire.{Bytes}
use muti.ClusterMap.{
  ObjectService, ObjectServiceMap, ServiceRef, online, syncing, ready_to_join, to_int,
}
use muti.ClusterMap.Index.{Indexes, locate}
use muti.ClusterMap.Codec.Encoding.{IsU32}
use muti.Monitor.{KeepAliveRequest, next_status, set_status}
use muti.Monitor.Laws.{AllMon, IsMonStatus, All-get_elem?}
use muti.Messages.{RequestHeader, kept_alive, keep_alive, keep_alive_object_service}
use muti.Messages.RoundTrip.{IsKeepAlive}
use muti.Messages.Exchange.{IsClusterHeader, Answers}
use muti.Messages.KeepAlive.{keep_alive-Answers-known}
use muti.Agent.{
  Agent, finished, keep_alive_sent, sync_started, keep_alive_worker, keep_alive_callback,
}

next_status-join :
    (mon : ℕ) → IsMonStatus mon → next_status mon (to_int ready_to_join) ≡ ok (to_int syncing)
unfolding next_status
next_status-join zero h = refl
next_status-join (suc zero) h = refl
next_status-join (suc (suc zero)) h = refl
next_status-join (suc (suc (suc zero))) h = absurd (h.1 refl)
next_status-join (suc (suc (suc (suc zero)))) h = refl
next_status-join (suc (suc (suc (suc (suc n))))) h = absurd (omega (arith, h.0))

next_status-online : (mon : ℕ) → mon ≤ 2 → next_status mon (to_int online) ≡ ok (to_int online)
unfolding next_status
next_status-online zero h = refl
next_status-online (suc zero) h = refl
next_status-online (suc (suc zero)) h = refl
next_status-online (suc (suc (suc n))) h = absurd (omega arith)

-- The request that the worker of an agent sends.
abbrev pub report : Agent → KeepAliveRequest
report a = record { version = a.version; os_id = a.os_id; status = to_int a.req_status }

keep_alive_worker-report : (a : Agent) → keep_alive_worker a true ≡ (a, keep_alive_sent (report a))
unfolding keep_alive_worker
keep_alive_worker-report a =
    let same : a.reference + 1 - 1 ≡ a.reference = omega arith in rw same refl

report-IsKeepAlive : (a : Agent) → IsU32 a.version → IsU32 a.os_id → IsKeepAlive (report a)
report-IsKeepAlive a v o = record { version = v; os_id = o; status = ground arith }

-- The service is known to a monitor that has an index and statuses that it may hold, with the version
-- of the service's own map, and its request and header, for the cluster resource, have fields in range.
pub record IsKnown (a : Agent) (m : ObjectServiceMap) (h : RequestHeader) (r : ServiceRef)
    : Type 0 where
  pub index : Indexes m.os_map m.object_service_list
  pub statuses : AllMon m.object_service_list
  pub version : a.version ≡ m.version
  pub version_range : IsU32 m.version
  pub os_id : IsU32 a.os_id
  pub header : IsClusterHeader h
  pub request_id : h.request_id ≡ 4
  pub place : locate a.os_id 0 m.object_service_list ≡ some r

-- What comes back to a known service.
known-Answers :
    (a : Agent) (m : ObjectServiceMap) (h : RequestHeader) (r : ServiceRef) (rest : Bytes)
    → IsKnown a m h r
    → (os : ObjectService) × (next : ℕ) × (get_elem? m.object_service_list r.place ≡ some os)
      × (next_status os.status (to_int a.req_status) ≡ ok next)
      × Answers keep_alive_object_service m
          (record { header = h; body = keep_alive (report a) })
          rest
          (kept_alive (record { version = m.version; status = next }))
          (set_status m r.place os next)
known-Answers a m h r rest k =
    keep_alive-Answers-known m h (report a) rest r k.index k.statuses k.version_range k.header
      k.request_id (report-IsKeepAlive a (subst IsU32 (sym k.version) k.version_range) k.os_id)
      (ground arith) k.place

-- A service that is known to the monitor and asks to join: its worker sends the report and leaves the
-- agent as it is; the monitor answers with its version and syncing, and has the service as syncing
-- afterwards; on that answer the service holds its map, is syncing, and starts its synchronisation.
pub join-syncing :
    (a : Agent) (m : ObjectServiceMap) (h : RequestHeader) (r : ServiceRef) (rest : Bytes)
    → IsKnown a m h r
    → a.req_status ≡ ready_to_join
    → (os : ObjectService) × (get_elem? m.object_service_list r.place ≡ some os)
      × (keep_alive_worker a true ≡ (a, keep_alive_sent (report a)))
      × Answers keep_alive_object_service m
          (record { header = h; body = keep_alive (report a) })
          rest
          (kept_alive (record { version = m.version; status = to_int syncing }))
          (set_status m r.place os (to_int syncing))
      × (keep_alive_callback a (some (record { version = m.version; status = to_int syncing })) true
          ≡ ok (
            record a { reference = a.reference + 1; req_status = syncing; os_status = syncing },
            sync_started,
          ))
unfolding keep_alive_callback
join-syncing a m h r rest k e =
    let (os, next, place, reply, answers) = known-Answers a m h r rest k in
    let good = All-get_elem? m.object_service_list r.place os k.statuses place in
    let same : next ≡ to_int syncing = ground (arith, next_status-join os.status good, reply, e) in
    (
      os,
      place,
      keep_alive_worker-report a,
      subst
          (λ n.
            Answers keep_alive_object_service m
              (record { header = h; body = keep_alive (report a) }) rest
              (kept_alive (record { version = m.version; status = n })) (set_status m r.place os n))
          same answers,
      ground (arith, k.version, e),
    )

-- A service that is known to the monitor and online, and which the monitor has as online, syncing or
-- offline: its worker sends the report and leaves the agent as it is; the monitor answers with its
-- version and online, and has the service as online afterwards; that answer leaves the agent as it is.
pub online-online :
    (a : Agent) (m : ObjectServiceMap) (h : RequestHeader) (r : ServiceRef) (rest : Bytes)
    (os : ObjectService)
    → IsKnown a m h r
    → a.req_status ≡ online
    → get_elem? m.object_service_list r.place ≡ some os
    → os.status ≤ 2
    → (keep_alive_worker a true ≡ (a, keep_alive_sent (report a)))
      × Answers keep_alive_object_service m
          (record { header = h; body = keep_alive (report a) })
          rest
          (kept_alive (record { version = m.version; status = to_int online }))
          (set_status m r.place os (to_int online))
      × (keep_alive_callback a (some (record { version = m.version; status = to_int online })) true
          ≡ ok (a, finished))
unfolding keep_alive_callback
online-online a m h r rest os k e there low =
    let (os', next, place, reply, answers) = known-Answers a m h r rest k in
    let this : os' ≡ os = ground (arith, place, there) in
    let same : next ≡ to_int online =
      ground (arith, next_status-online os.status low, reply, e, this) in
    let back : a.reference + 1 - 1 ≡ a.reference = omega arith in
    (
      keep_alive_worker-report a,
      subst
          (λ n.
            Answers keep_alive_object_service m
              (record { header = h; body = keep_alive (report a) }) rest
              (kept_alive (record { version = m.version; status = n })) (set_status m r.place os n))
          same
          (subst
            (λ o.
              Answers keep_alive_object_service m
                (record { header = h; body = keep_alive (report a) }) rest
                (kept_alive (record { version = m.version; status = next }))
                (set_status m r.place o next))
            this answers),
      ground (arith, k.version, e, back),
    )
