-- ===== src/Tests/Monitors.antt =====
-- The keep-alive theorems at the map of two services, as the parser returns it.
use muti.Common.{ℕ, ◌≡◌, ok}
use muti.ClusterMap.{ready_to_join, error}
use muti.Monitor.{KeepAliveRequest, next_status, unknown_status}
use muti.Monitor.Doc.{next_status-documented}

next_status-documented_example : (next_status 4 3 ≡ ok 1) × (unknown_status 3 ≡ ok 4)
next_status-documented_example = next_status-documented ready_to_join error

abbrev joining : ℕ → KeepAliveRequest
joining id = record { version = 3; os_id = id; status = 3 }
