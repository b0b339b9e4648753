-- ===== src/Client/Reports.antt =====
-- The report of an object service, through the client of corecode/client/Client.c and the monitor.
use muti.Common.{ℕ, ◌+◌, ◌%◌, ◌^◌, ◌≡◌, refl, [], ◌∷◌, ◌++◌, true, none, some, ok, arith, get_elem?}
use muti.Wire.{Bytes}
use muti.ClusterMap.{ObjectService, ObjectServiceMap, ServiceRef}
use muti.ClusterMap.Index.{Indexes, locate}
use muti.ClusterMap.Codec.Encoding.{IsU32}
use muti.Monitor.{KeepAliveRequest, next_status, set_status}
use muti.Monitor.Laws.{AllMon, IsStatus}
use muti.Messages.{
  RequestHeader, ClusterRequest, cluster_request_id, kept_alive, keep_alive,
  keep_alive_object_service, answer,
}
use muti.Messages.RoundTrip.{IsKeepAlive}
use muti.Messages.Exchange.{IsClusterHeader, serve}
use muti.Messages.KeepAlive.{keep_alive-Answers-known}
use muti.Client.{Client, client_send_request, client_read}
use muti.Client.Waiting.{waiting, IsClient}
use muti.Client.Delivery.{numbered, entry, request_delivered}

-- The request as the caller of the client makes it.
abbrev pub report_request : RequestHeader → KeepAliveRequest → ClusterRequest
report_request h k = record { header = h; body = keep_alive k }

-- On a connected client, with lists of distinct sequence numbers, under whose next number nothing
-- waits; and for a service that the monitor's map has, under its index and with statuses that the
-- monitor may hold: the client sends the report of a valid status, to the cluster resource; the monitor
-- serves the bytes, and has the service with the status of the tables afterwards; the client reads the
-- response, and it goes to that request, with the monitor's version and that status; nothing is left
-- of the response, the connection stays open, and what waited before waits as before.
pub report_delivered :
    (c : Client) (h : RequestHeader) (k : KeepAliveRequest) (arg : ℕ) (m : ObjectServiceMap)
    (r : ServiceRef) (rest : Bytes)
    → IsClient c
    → c.conn ≡ true
    → waiting c ((c.sequence + 1) % 2 ^ 32) ≡ none
    → h.resource_id ≡ 0
    → h.request_id ≡ 4
    → IsKeepAlive k
    → IsStatus k.status
    → Indexes m.os_map m.object_service_list
    → AllMon m.object_service_list
    → IsU32 m.version
    → locate k.os_id 0 m.object_service_list ≡ some r
    → (os : ObjectService) × (next : ℕ) × (get_elem? m.object_service_list r.place ≡ some os)
      × (next_status os.status k.status ≡ ok next)
      × (wbuf response : Bytes) × (c' : Client) × (c'' : Client) × (client_send_request c
            (report_request h k)
            arg
            true
          ≡ ok (some wbuf, c'))
      × (serve m (wbuf ++ rest) ≡ ok (response, set_status m r.place os next, rest))
      × (client_read 2 c' response
          ≡ ok (record {
            delivered =
                (
                  entry c keep_alive_object_service arg,
                  answer
                      (numbered c (report_request h k)).header
                      (kept_alive (record { version = m.version; status = next })),
                )
                ∷ [];
            client = c'';
            left = [];
            is_open = true;
          }))
      × ((q : ℕ) → waiting c'' q ≡ waiting c q)
unfolding cluster_request_id
report_delivered c h k arg m r rest v up free cluster e range valid index all version there =
    let header : IsClusterHeader (numbered c (report_request h k)).header = record {
      resource_id = cluster;
      request_id = omega (arith, e);
      sequence = omega arith;
    } in
    let (os, next, place, reply, answers) =
      keep_alive-Answers-known m (numbered c (report_request h k)).header k rest r index all version
        header e range valid there in
    let (wbuf, response, c', c'', sent, served, received, left) =
      request_delivered c (report_request h k) arg keep_alive_object_service m
        (set_status m r.place os next) rest
        (kept_alive (record { version = m.version; status = next })) v up cluster (rw e refl) free
        answers in
    (os, next, place, reply, wbuf, response, c', c'', sent, served, received, left)
