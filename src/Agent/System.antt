-- ===== src/Agent/System.antt =====
-- The runs of an object service: runs of its housekeeping worker and callbacks of what it sent, in
-- any order, each call to the client with any result.
use muti.Common.{
  ℕ, suc, ◌+◌, ◌-◌, ◌<◌, ◌≡◌, refl, ◌⊎◌, inl, Bool, true, false, Option, none, some, ok, arith,
}
use muti.ClusterMap.{ObjectServiceStatus, online, syncing, ready_to_join}
use muti.Monitor.{KeepAliveResponse}
use muti.Agent.{
  Agent, Sent, finished, keep_alive_sent, change_log_sent, sync_started, keep_alive_worker,
  on_error, keep_alive_callback, change_log_callback, sync_callback,
}

-- The agent, with how many callbacks of each kind are to come.
pub record System : Type 0 where
  pub agent : Agent
  pub keep_alives : ℕ
  pub change_logs : ℕ
  pub syncs : ℕ

-- The map is held once, and the service asks to join; its record has the status that the map came
-- with.
abbrev pub initial : ℕ → ℕ → ObjectServiceStatus → System
initial os_id version os_status = record {
  agent = record {
    os_id = os_id;
    req_status = ready_to_join;
    version = version;
    reference = 1;
    os_status = os_status;
  };
  keep_alives = 0;
  change_logs = 0;
  syncs = 0;
}

unfoldable pub after : System → Agent × Sent → System
after s (a, finished) = record s { agent = a }
after s (a, keep_alive_sent request) = record s { agent = a; keep_alives = suc s.keep_alives }
after s (a, change_log_sent version) = record s { agent = a; change_logs = suc s.change_logs }
after s (a, sync_started) = record s { agent = a; syncs = suc s.syncs }

pub data Step : System → System → Type 0 where
  worked : (s : System) (rc : Bool) → Step s (after s (keep_alive_worker s.agent rc))
  replied :
      (s : System) (response : Option KeepAliveResponse) (rc : Bool) (r : Agent × Sent)
      → 0 < s.keep_alives
      → keep_alive_callback s.agent response rc ≡ ok r
      → Step s (after (record s { keep_alives = s.keep_alives - 1 }) r)
  logged :
      (s : System) (error_id : Bool)
      → 0 < s.change_logs
      → Step s (
          after
            (record s { change_logs = s.change_logs - 1 })
            (change_log_callback s.agent error_id))
  synced :
      (s : System)
      → 0 < s.syncs
      → Step s (record s { agent = sync_callback s.agent; syncs = s.syncs - 1 })

pub data Reach (s : System) : System → Type 0 where
  here : Reach s s
  more : {t u : System} → Reach s t → Step t u → Reach s u

-- The map is held by its owner and by each callback that will release it.
abbrev pub IsHeld : System → Type 0
IsHeld s = s.agent.reference ≡ 1 + s.change_logs + s.syncs

-- What the service reports is what its record says, unless it asks to join. While it synchronises
-- itself the callback that ends this is to come.
abbrev pub Agrees : System → Type 0
Agrees s =
    (s.agent.req_status ≡ ready_to_join)
    ⊎ (((s.agent.req_status ≡ online) × (s.agent.os_status ≡ online))
        ⊎ ((s.agent.req_status ≡ syncing) × (s.agent.os_status ≡ syncing) × (0 < s.syncs)))

worked-keeps :
    (s : System) (rc : Bool)
    → IsHeld s × Agrees s
    → IsHeld (after s (keep_alive_worker s.agent rc))
      × Agrees (after s (keep_alive_worker s.agent rc))
unfolding keep_alive_worker after
worked-keeps s true h = ground arith
worked-keeps s false h = ground arith

logged-keeps :
    (s : System) (error_id : Bool)
    → 0 < s.change_logs
    → IsHeld s × Agrees s
    → IsHeld (
        after (record s { change_logs = s.change_logs - 1 }) (change_log_callback s.agent error_id))
      × Agrees (
          after
            (record s { change_logs = s.change_logs - 1 })
            (change_log_callback s.agent error_id))
unfolding change_log_callback on_error after
logged-keeps s true pos h = ground arith
logged-keeps s false pos h = ground arith

synced-keeps :
    (s : System)
    → 0 < s.syncs
    → IsHeld s × Agrees s
    → IsHeld (record s { agent = sync_callback s.agent; syncs = s.syncs - 1 })
      × Agrees (record s { agent = sync_callback s.agent; syncs = s.syncs - 1 })
unfolding sync_callback
synced-keeps s pos h = ground arith

replied-keeps :
    (s : System) (response : Option KeepAliveResponse) (rc : Bool) (r : Agent × Sent)
    → 0 < s.keep_alives
    → keep_alive_callback s.agent response rc ≡ ok r
    → IsHeld s × Agrees s
    → IsHeld (after (record s { keep_alives = s.keep_alives - 1 }) r)
      × Agrees (after (record s { keep_alives = s.keep_alives - 1 }) r)
unfolding keep_alive_callback on_error after
replied-keeps s none rc r pos e h = ground arith
replied-keeps s (some resp) rc r pos e h = ground arith

Step-keeps : {s t : System} → Step s t → IsHeld s × Agrees s → IsHeld t × Agrees t
Step-keeps (worked s rc) h = worked-keeps s rc h
Step-keeps (replied s response rc r pos e) h = replied-keeps s response rc r pos e h
Step-keeps (logged s error_id pos) h = logged-keeps s error_id pos h
Step-keeps (synced s pos) h = synced-keeps s pos h

-- In every run of an object service, whatever the client's calls return and the monitor answers: the
-- map's reference count is one for the owner and one for each change log request and each
-- synchronisation whose callback is to come. The service asks to join, or reports online and its
-- record says so, or reports syncing, its record says so, and the callback of a synchronisation is to
-- come.
pub reachable-Agrees :
    (os_id version : ℕ) (os_status : ObjectServiceStatus) {s : System}
    → Reach (initial os_id version os_status) s
    → IsHeld s × Agrees s
reachable-Agrees os_id version os_status here = (omega arith, inl refl)
reachable-Agrees os_id version os_status (more r st) =
    Step-keeps st (reachable-Agrees os_id version os_status r)
