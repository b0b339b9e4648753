-- ===== src/Tests/Agents.antt =====
-- The object service 9 of the map of two services, which the monitor has as offline.
use muti.Common.{◌+◌, ◌≡◌, refl, true, some, [], ok, get_elem?, arith}
use muti.ClusterMap.{
  ObjectService, ServiceRef, ObjectServiceStatus, syncing, offline, ready_to_join, to_int,
}
use muti.Monitor.{set_status}
use muti.Messages.{kept_alive, keep_alive, keep_alive_object_service}
use muti.Messages.Exchange.{Answers}
use muti.Agent.{Agent, keep_alive_sent, sync_started, keep_alive_worker, keep_alive_callback}
use muti.Agent.System.{
  System, initial, after, worked, replied, Reach, here, more, IsHeld, Agrees, reachable-Agrees,
}
use muti.Agent.Joining.{report, IsKnown, join-syncing}
use muti.Tests.Samples.{parsed, parsed-Indexes}
use muti.Tests.Exchanges.{header, header-IsClusterHeader}

abbrev agent : ObjectServiceStatus → Agent
agent status = record {
  os_id = 9;
  req_status = status;
  version = 3;
  reference = 1;
  os_status = offline;
}

abbrev ref : ServiceRef
ref = record { id = 9; place = 1 }

agent-IsKnown : (status : ObjectServiceStatus) → IsKnown (agent status) parsed (header 4) ref
agent-IsKnown status = record {
  index = parsed-Indexes;
  statuses = omega arith;
  version = refl;
  version_range = omega arith;
  os_id = omega arith;
  header = header-IsClusterHeader 4 (omega arith);
  request_id = refl;
  place = refl;
}

join-syncing_example :
    (os : ObjectService) × (get_elem? parsed.object_service_list 1 ≡ some os)
    × (keep_alive_worker (agent ready_to_join) true
        ≡ (agent ready_to_join, keep_alive_sent (report (agent ready_to_join))))
    × Answers keep_alive_object_service parsed
        (record { header = header 4; body = keep_alive (report (agent ready_to_join)) })
        []
        (kept_alive (record { version = 3; status = to_int syncing }))
        (set_status parsed 1 os (to_int syncing))
    × (keep_alive_callback
          (agent ready_to_join)
          (some (record { version = 3; status = to_int syncing }))
          true
        ≡ ok (
          record (agent ready_to_join) {
            reference = 1 + 1;
            req_status = syncing;
            os_status = syncing;
          },
          sync_started,
        ))
join-syncing_example =
    join-syncing (agent ready_to_join) parsed (header 4) ref [] (agent-IsKnown ready_to_join) refl

-- A keep-alive is sent and answered with the version of the map.
abbrev joined_system : System
joined_system = record {
  agent = record (agent syncing) { reference = 2; os_status = syncing };
  keep_alives = 0;
  change_logs = 0;
  syncs = 1;
}

joined_run : Reach (initial 9 3 offline) joined_system
unfolding keep_alive_worker keep_alive_callback after
joined_run = more (more here (worked (initial 9 3 offline) true)) (
    replied _ (some (record { version = 3; status = 1 })) true
      (record (agent syncing) { reference = 2; os_status = syncing }, sync_started) (omega arith)
      refl)

reachable-Agrees_example : IsHeld joined_system × Agrees joined_system
reachable-Agrees_example = reachable-Agrees 9 3 offline joined_run
