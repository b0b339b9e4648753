-- ===== src/Monitor/Laws.antt =====
-- What a keep-alive does to the map of the monitor.
use muti.Common.{
  ℕ, zero, suc, ◌+◌, ◌^◌, ◌≤◌, ◌≡◌, ◌≢◌, refl, sym, ap, ◌∙◌, subst, List, [], ◌∷◌, none, some, ok,
  set, All, get_elem?, arith, inl, inr, at-get_elem?, Bool-cases, ◌==◌, ◌%◌,
}
use muti.ClusterMap.{
  ObjectService, ObjectServiceMap, ServiceRef, ObjectServiceStatus, to_int, online, syncing,
  offline, ready_to_join, error,
}
use muti.ClusterMap.Index.{Indexes, locate, cluster_map_get_object_service-locate}
use muti.Monitor.Doc.{documented, next_status-documented}
use muti.Monitor.{
  KeepAliveRequest, next_status, unknown_status, set_status,
  cluster_action_keep_alive_object_service,
}

-- A status that the monitor may hold: none of its own is ready_to_join.
abbrev pub IsMonStatus : ℕ → Type 0
IsMonStatus status = (status ≤ 4) × (status ≢ 3)

-- A status that a request may hold.
abbrev pub IsStatus : ℕ → Type 0
IsStatus status = status ≤ 4

-- The enum constant that such a number stands for.
status_of : (n : ℕ) → IsStatus n → (s : ObjectServiceStatus) × (n ≡ to_int s)
status_of zero h = (online, refl)
status_of (suc zero) h = (syncing, refl)
status_of (suc (suc zero)) h = (offline, refl)
status_of (suc (suc (suc zero))) h = (ready_to_join, refl)
status_of (suc (suc (suc (suc zero)))) h = (error, refl)
status_of (suc (suc (suc (suc (suc n))))) h = absurd (omega arith)

documented-IsMonStatus :
    (os mon : ObjectServiceStatus)
    → IsMonStatus (to_int mon)
    → IsMonStatus (to_int (documented os (some mon)))
documented-IsMonStatus os mon h = ground arith

-- With such statuses the table lookups stay in bounds, and give such a status.
pub next_status-IsMonStatus :
    (mon os : ℕ)
    → IsMonStatus mon
    → IsStatus os
    → (next : ℕ) × (next_status mon os ≡ ok next) × IsMonStatus next
next_status-IsMonStatus mon os h k =
    let (m, e) = status_of mon h.0 in
    let (o, f) = status_of os k in
    (
      to_int (documented o (some m)),
      ap (λ n. next_status n os) e
          ∙ ap (λ n. next_status (to_int m) n) f
          ∙ (next_status-documented o m).0,
      documented-IsMonStatus o m (subst IsMonStatus e h),
    )

pub unknown_status-error : (os : ℕ) → IsStatus os → unknown_status os ≡ ok (to_int error)
unknown_status-error os h =
    let (o, f) = status_of os h in ap unknown_status f ∙ (next_status-documented o online).1

-- The services of a map whose statuses are the monitor's.
abbrev pub AllMon : List ObjectService → Type 0
AllMon = All (λ os. IsMonStatus os.status)

locate-get_elem? :
    (q place : ℕ) (services : List ObjectService) (r : ServiceRef)
    → locate q place services ≡ some r
    → (os : ObjectService) × (i : ℕ) × (get_elem? services i ≡ some os)
      × (r.place ≡ place + i)
      × (os.id ≡ r.id)
locate-get_elem? q place [] r h = cc
locate-get_elem? q place (s ∷ services) r h = elim (Bool-cases (q % 2 ^ 32 == s.id % 2 ^ 32)) [
  | inl here ↦ (s, 0, refl, ground arith, ground arith)
  | inr on ↦
      let later : locate q (place + 1) services ≡ some r = rw on at h in
      let (os, i, found, at_place, same) = locate-get_elem? q (place + 1) services r later in
      (os, suc i, found, omega arith, same)
]

pub All-get_elem? :
    (services : List ObjectService) (i : ℕ) (os : ObjectService)
    → AllMon services
    → get_elem? services i ≡ some os
    → IsMonStatus os.status
All-get_elem? [] i os all h = cc
All-get_elem? (s ∷ services) zero os all h =
    let e : s ≡ os = ground arith in subst (λ t. IsMonStatus t.status) e all.0
All-get_elem? (s ∷ services) (suc i) os all h = All-get_elem? services i os all.1 h

AllMon-set :
    (services : List ObjectService) (i : ℕ) (os : ObjectService)
    → AllMon services
    → IsMonStatus os.status
    → AllMon (set services i os)
AllMon-set [] i os all h = tt
AllMon-set (s ∷ services) zero os all h = (h, all.1)
AllMon-set (s ∷ services) (suc i) os all h = (all.0, AllMon-set services i os all.1 h)

-- A status does not count in the search for an id.
locate-set :
    (q place : ℕ) (services : List ObjectService) (i : ℕ) (os : ObjectService) (status : ℕ)
    → get_elem? services i ≡ some os
    → locate q place (set services i (record os { status = status })) ≡ locate q place services
locate-set q place [] i os status h = cc
locate-set q place (s ∷ services) zero os status h = ground arith
locate-set q place (s ∷ services) (suc i) os status h =
    ground (arith, locate-set q (place + 1) services i os status h)

-- A service takes a status that the monitor may hold: the index and the statuses stay as they must be.
set_status-keeps :
    (m : ObjectServiceMap) (place : ℕ) (os : ObjectService) (next : ℕ)
    → Indexes m.os_map m.object_service_list
    → AllMon m.object_service_list
    → get_elem? m.object_service_list place ≡ some os
    → IsMonStatus next
    → Indexes (set_status m place os next).os_map (set_status m place os next).object_service_list
      × AllMon (set_status m place os next).object_service_list
unfolding set_status
set_status-keeps m place os next index all here good = (
  record {
    valid = index.valid;
    finds = λ q. index.finds q ∙ sym (locate-set q 0 m.object_service_list place os next here);
  },
  AllMon-set m.object_service_list place (record os { status = next }) all good,
)

-- On a map with an index, whose statuses the monitor may hold, a keep-alive of a service in the map
-- with a valid status succeeds. The response has the map's version and the status that the tables
-- give; that service alone has this status afterwards, and the map still has an index and such
-- statuses.
pub cluster_action_keep_alive_object_service-known :
    (m : ObjectServiceMap) (request : KeepAliveRequest) (r : ServiceRef)
    → Indexes m.os_map m.object_service_list
    → AllMon m.object_service_list
    → IsStatus request.status
    → locate request.os_id 0 m.object_service_list ≡ some r
    → (os : ObjectService) × (next : ℕ) × (get_elem? m.object_service_list r.place ≡ some os)
      × (next_status os.status request.status ≡ ok next)
      × (cluster_action_keep_alive_object_service m request
          ≡ ok (record { version = m.version; status = next }, set_status m r.place os next))
      × IsMonStatus next
      × (Indexes
            (set_status m r.place os next).os_map
            (set_status m r.place os next).object_service_list
          × AllMon (set_status m r.place os next).object_service_list)
unfolding cluster_action_keep_alive_object_service
cluster_action_keep_alive_object_service-known m request r index all valid there =
    let found = cluster_map_get_object_service-locate m index request.os_id in
    let (os, i, here, home, same) =
      locate-get_elem? request.os_id 0 m.object_service_list r there in
    let place : get_elem? m.object_service_list r.place ≡ some os =
      subst (λ j. get_elem? m.object_service_list j ≡ some os) (omega arith) here in
    let (next, reply, good) =
      next_status-IsMonStatus os.status request.status
        (All-get_elem? m.object_service_list r.place os all place) valid in
    (
      os,
      next,
      place,
      reply,
      rw (found, there, at-get_elem? m.object_service_list r.place os place, reply) refl,
      good,
      set_status-keeps m r.place os next index all place good,
    )

-- A keep-alive of a service that the map does not have, with a valid status, is answered with the
-- status error and leaves the map as it is.
pub cluster_action_keep_alive_object_service-unknown :
    (m : ObjectServiceMap) (request : KeepAliveRequest)
    → Indexes m.os_map m.object_service_list
    → IsStatus request.status
    → locate request.os_id 0 m.object_service_list ≡ none
    → cluster_action_keep_alive_object_service m request
      ≡ ok (record { version = m.version; status = to_int error }, m)
unfolding cluster_action_keep_alive_object_service
cluster_action_keep_alive_object_service-unknown m request index valid absent =
    let found = cluster_map_get_object_service-locate m index request.os_id in
    let reply = unknown_status-error request.status valid in rw (found, absent, reply) refl
