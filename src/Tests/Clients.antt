-- ===== src/Tests/Clients.antt =====
-- A client that has just connected, and the monitor of the two services.
use muti.Common.{ℕ, get_elem?, ◌≡◌, refl, true, some, none, [], ◌∷◌, ◌++◌, ok, arith}
use muti.Wire.{Bytes, read_u32}
use muti.Messages.{
  keep_alive_object_service, kept_alive, ClusterRequest, ResponseHeader, plain, answer,
  get_object_service_map_latest_version, read_response_header,
}
use muti.Messages.Exchange.{serve}
use muti.Client.{
  ClientSendArg, Client, hash_of, set_slot, find, init_client, client_send_request, client_read,
}
use muti.Client.Waiting.{waiting, IsClient, set_slot-IsClient}
use muti.Client.Delivery.{numbered, entry}
use muti.Client.Reports.{report_request, report_delivered}
use muti.ClusterMap.{ObjectService}
use muti.Monitor.{next_status, set_status}
use muti.Tests.Exchanges.{header, report, report-IsKeepAlive}
use muti.Tests.Samples.{parsed, parsed-Indexes}

abbrev request : ClusterRequest
request = record { header = record { resource_id = 0; request_id = 0; sequence = 0 }; body = plain }

init_client-IsClient : IsClient init_client
unfolding init_client
init_client-IsClient i = tt

nothing_waits : waiting init_client 1023 ≡ none
unfolding init_client waiting find
nothing_waits = refl

abbrev sent_entry : ClientSendArg
sent_entry = record { sequence = 1023; request_id = get_object_service_map_latest_version; arg = 6 }

report_delivered_example :
    (os : ObjectService) × (next : ℕ) × (get_elem? parsed.object_service_list 1 ≡ some os)
    × (next_status os.status 3 ≡ ok next)
    × (wbuf response : Bytes) × (c' : Client) × (c'' : Client) × (client_send_request init_client
          (report_request (header 4) (report 9))
          6
          true
        ≡ ok (some wbuf, c'))
    × (serve parsed (wbuf ++ []) ≡ ok (response, set_status parsed 1 os next, []))
    × (client_read 2 c' response
        ≡ ok (record {
          delivered =
              (
                entry init_client keep_alive_object_service 6,
                answer
                    (numbered init_client (report_request (header 4) (report 9))).header
                    (kept_alive (record { version = 3; status = next })),
              )
              ∷ [];
          client = c'';
          left = [];
          is_open = true;
        }))
    × ((q : ℕ) → waiting c'' q ≡ waiting init_client q)
unfolding init_client
report_delivered_example =
    report_delivered init_client (header 4) (report 9) 6 parsed (record { id = 9; place = 1 }) []
      init_client-IsClient refl nothing_waits refl refl (report-IsKeepAlive 9 (omega arith))
      (omega arith) parsed-Indexes (omega arith) (omega arith) refl

-- The client with that request waiting, and the first 8 bytes of the response.
abbrev asking : Client
asking = record {
  conn = true;
  sequence = 1023;
  waiting_hash_slots = set_slot (λ _. []) (hash_of 1023) (sent_entry ∷ []);
}

asking-IsClient : IsClient asking
unfolding init_client find
asking-IsClient =
    set_slot-IsClient init_client (hash_of 1023) 1023 (sent_entry ∷ []) init_client-IsClient
      (refl, tt)

asking-waiting : waiting asking 1023 ≡ some sent_entry
unfolding waiting find set_slot
asking-waiting = ground arith

abbrev front : Bytes
front = 0 ∷ 0 ∷ 0 ∷ 0 ∷ 255 ∷ 3 ∷ 0 ∷ 0 ∷ []

abbrev front_header : ResponseHeader
front_header = record { error_id = 0; sequence = 1023 }

front_header_read : read_response_header front ≡ ok (front_header, [])
unfolding read_response_header read_u32
front_header_read = refl
