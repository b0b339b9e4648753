-- ===== src/Monitor/Doc.antt =====
-- The table in the comment above `ClusterActionKeepAliveObjectService` of
-- services/mon/server/cluster/ClusterHandler.c, and that the code's tables are that table.
use muti.Common.{◌≡◌, Option, none, some, ok, arith}
use muti.Monitor.{next_status, unknown_status}
use muti.ClusterMap.{ObjectServiceStatus, to_int, syncing, ready_to_join, error}

-- The last column of the comment, from the first two: the status that the object service reports,
-- and the status that the monitor has of it, if it knows the service.
abbrev pub documented : ObjectServiceStatus → Option ObjectServiceStatus → ObjectServiceStatus
documented os none = error
documented os (some ready_to_join) = error
documented ready_to_join (some error) = syncing
documented os (some error) = error
documented ready_to_join (some mon) = syncing
documented os (some mon) = os

-- For each service that the monitor knows, and for each that it does not, the tables of the code
-- give the response of the comment.
pub next_status-documented :
    (os mon : ObjectServiceStatus)
    → (next_status (to_int mon) (to_int os) ≡ ok (to_int (documented os (some mon))))
      × (unknown_status (to_int os) ≡ ok (to_int (documented os none)))
unfolding next_status unknown_status
next_status-documented os mon = ground arith
