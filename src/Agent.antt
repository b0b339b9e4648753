-- ===== src/Agent.antt =====
-- libs/cluster/ClusterMapObjectService.c: how an object service keeps itself known to the monitor. It
-- reports its status every few seconds, and follows the answer; when it may join it synchronises
-- itself, and is online after that.
-- The client (`sendRequest`) and the synchronisation (`syncMasterNode`) call back later: the calls
-- that wait for their callback are part of the state. Each callback is one step, and so is a run of
-- the housekeeping worker. A service that its own map does not have reads a null pointer in the source; in
-- the model the map has it.
pub mod Joining
pub mod Starting
pub mod System
use muti.Common.{
  ℕ, ◌+◌, ◌-◌, Option, none, some, Bool, true, false, Outcome, ok, aborted, ◌>>=◌, ltb, ◌==◌,
  if◌then◌else◌,
}
use muti.ClusterMap.{ObjectServiceStatus, online, syncing, offline, ready_to_join, to_int}
use muti.Monitor.{KeepAliveRequest, KeepAliveResponse}

-- `req_status` of `ClusterMapObjectServicePrivate`, with what it uses of its map: the version, the
-- reference count and the status of its own record.
pub record Agent : Type 0 where
  pub os_id : ℕ
  pub req_status : ObjectServiceStatus
  pub version : ℕ
  pub reference : ℕ
  pub os_status : ObjectServiceStatus

-- What a function leaves behind besides the agent.
pub data Sent : Type 0 where
  -- nothing: the housekeeping callback was called
  finished : Sent
  -- a keep-alive is on its way, and its callback will come
  keep_alive_sent : KeepAliveRequest → Sent
  -- the change log was asked for, at this version, and its callback will come
  change_log_sent : ℕ → Sent
  -- the synchronisation was started, the housekeeping callback was called, and the callback of the
  -- synchronisation will come
  sync_started : Sent

-- `clusterMapGetObjectServiceMap` and `clusterMapPutObjectServiceMap` on a map that stays held
abbrev hold : Agent → Agent
hold a = record a { reference = a.reference + 1 }

abbrev release : Agent → Agent
release a = record a { reference = a.reference - 1 }

-- Back to offline, and to asking to join.
abbrev pub offline_again : Agent → Agent
offline_again a = record a { os_status = offline; req_status = ready_to_join }

-- Whether `req_status` is a given one.
abbrev pub is_status : ObjectServiceStatus → ObjectServiceStatus → Bool
is_status a b = to_int a == to_int b

-- `clusterMapKeepAliveHouseKeepingWorker`; `rc` is what `sendRequest` returns.
unfoldable pub keep_alive_worker : Agent → Bool → Agent × Sent
keep_alive_worker a rc =
    let held = hold a in
    let request : KeepAliveRequest = record {
      version = held.version;
      os_id = held.os_id;
      status = to_int held.req_status;
    } in
    if rc then (release held, keep_alive_sent request) else (release (offline_again held), finished)

-- The offline branch of the callbacks: a service that synchronises itself is left alone.
unfoldable pub on_error : Agent → Agent
on_error a = if is_status a.req_status syncing then a else offline_again a

-- `clusterMapOSKeepAliveCallback`: the response, or none for an error; `rc` is what `sendRequest`
-- returns for the change log.
unfoldable pub keep_alive_callback :
    Agent → Option KeepAliveResponse → Bool → Outcome (Agent × Sent)
unfolding on_error
keep_alive_callback a response rc =
    let held = hold a in
    elim response [
      | none ↦ ok (release (on_error held), finished)
      | some resp ↦
          if ltb held.version resp.version
          then (if rc
              then ok (held, change_log_sent resp.version)
              else ok (release (offline_again held), finished))
          else if resp.version == held.version
          then (if is_status held.req_status ready_to_join
              then ok (record held { req_status = syncing; os_status = syncing }, sync_started)
              else ok (release held, finished))
          else aborted
    ]

-- `clusterMapGetObjectServiceMapChangeLogCallback`: whether the response is an error. The change log
-- is not applied.
unfoldable pub change_log_callback : Agent → Bool → Agent × Sent
unfolding on_error
change_log_callback a error_id = (release (if error_id then on_error a else a), finished)

-- `clusterMapSyncMasterNodeCallback`
unfoldable pub sync_callback : Agent → Agent
sync_callback a = release (record a { os_status = online; req_status = online })
