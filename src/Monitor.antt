-- ===== src/Monitor.antt =====
-- services/mon/server/cluster/ClusterHandler.c: the actions of the monitor on its object service map.
-- Each action takes the map and the request's fields, and gives the response's fields and the map
-- that it leaves; the messages that carry both are in Messages. Each action is one step: the monitor
-- takes no lock while it changes a status, and two keep-alives at once may lose one of the changes.
pub mod Doc
pub mod Laws
use muti.Common.{
  ℕ, zero, suc, ◌+◌, ◌^◌, List, [], ◌∷◌, Option, none, some, Outcome, ok, failed, aborted, ◌>>=◌,
  at, set,
}
use muti.ClusterMap.{
  ObjectService, ObjectServiceMap, ServiceRef, cluster_map_get_object_service, ObjectServiceStatus,
  to_int, online, syncing, offline, ready_to_join, error,
}

-- `StatMap`
pub record StatMap : Type 0 where
  pub input : ObjectServiceStatus
  pub output : ObjectServiceStatus

abbrev stat : ObjectServiceStatus → ObjectServiceStatus → StatMap
stat i o = record { input = i; output = o }

pub none_stat_map : List StatMap
none_stat_map =
    stat online error
    ∷ stat syncing error
    ∷ stat offline error
    ∷ stat ready_to_join error
    ∷ stat error error
    ∷ []

pub online_stat_map : List StatMap
online_stat_map =
    stat online online
    ∷ stat syncing syncing
    ∷ stat offline offline
    ∷ stat ready_to_join syncing
    ∷ stat error error
    ∷ []

pub syncing_stat_map : List StatMap
syncing_stat_map =
    stat online online
    ∷ stat syncing syncing
    ∷ stat offline offline
    ∷ stat ready_to_join syncing
    ∷ stat error error
    ∷ []

pub offline_stat_map : List StatMap
offline_stat_map =
    stat online online
    ∷ stat syncing syncing
    ∷ stat offline offline
    ∷ stat ready_to_join syncing
    ∷ stat error error
    ∷ []

pub ready_to_join_stat_map : List StatMap
ready_to_join_stat_map =
    stat online error
    ∷ stat syncing error
    ∷ stat offline error
    ∷ stat ready_to_join error
    ∷ stat error error
    ∷ []

pub error_stat_map : List StatMap
error_stat_map =
    stat online error
    ∷ stat syncing error
    ∷ stat offline error
    ∷ stat ready_to_join syncing
    ∷ stat error error
    ∷ []

pub mon_stat_map : List (List StatMap)
mon_stat_map =
    online_stat_map ∷ syncing_stat_map ∷ offline_stat_map ∷ ready_to_join_stat_map ∷ error_stat_map
    ∷ []

-- `ClusterKeepAliveObjectServiceRequest` and its response
pub record KeepAliveRequest : Type 0 where
  pub version : ℕ
  pub os_id : ℕ
  pub status : ℕ

pub record KeepAliveResponse : Type 0 where
  pub version : ℕ
  pub status : ℕ

-- `MonStatMap[os->status][request->status].output`: both indices come unchecked
unfoldable pub next_status : ℕ → ℕ → Outcome ℕ
unfolding mon_stat_map online_stat_map syncing_stat_map offline_stat_map ready_to_join_stat_map
    error_stat_map
next_status os_status request_status = do
  table ← at mon_stat_map os_status
  row ← at table request_status
  ok (to_int row.output)

-- `NoneStatMap[request->status].output`
unfoldable pub unknown_status : ℕ → Outcome ℕ
unfolding none_stat_map
unknown_status request_status = do row ← at none_stat_map request_status; ok (to_int row.output)

-- `os->status = status` through a pointer into the list
unfoldable pub set_status : ObjectServiceMap → ℕ → ObjectService → ℕ → ObjectServiceMap
set_status m place os status = record m {
  object_service_list = set m.object_service_list place (record os { status = status });
}

unfoldable pub cluster_action_keep_alive_object_service :
    ObjectServiceMap → KeepAliveRequest → Outcome (KeepAliveResponse × ObjectServiceMap)
cluster_action_keep_alive_object_service m request = do
  found ← cluster_map_get_object_service m request.os_id
  elim found [
    | none ↦ do
      status ← unknown_status request.status
      ok (record { version = m.version; status = status }, m)
    | some r ↦ do
      os ← at m.object_service_list r.place
      status ← next_status os.status request.status
      ok (record { version = m.version; status = status }, set_status m r.place os status)
  ]

-- The version that a client asks for, and that a client's keep-alive is answered with.
unfoldable pub cluster_action_get_object_service_map_latest_version : ObjectServiceMap → ℕ
cluster_action_get_object_service_map_latest_version m = m.version

unfoldable pub cluster_action_keep_alive_client : ObjectServiceMap → ℕ
cluster_action_keep_alive_client m = m.version

-- `ClusterStatusResponse` with the map that it points to
pub record ClusterStatus : Type 0 where
  pub total_objects : ℕ
  pub used : ℕ
  pub free : ℕ
  pub os_map : ObjectServiceMap

unfoldable pub cluster_action_status : ObjectServiceMap → ClusterStatus
cluster_action_status m = record { total_objects = 0; used = 0; free = 0; os_map = m }
