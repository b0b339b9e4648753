-- ===== src/Tests/Exchanges.antt =====
-- The messages between client and monitor, at the map of two services.
use muti.Common.{ℕ, ◌≡◌, ◌<◌, refl, some, [], ◌∷◌, ◌++◌, ok, get_elem?, arith}
use muti.Wire.{Bytes}
use muti.ClusterMap.{ObjectService}
use muti.Monitor.{KeepAliveRequest, next_status, set_status}
use muti.Messages.{
  RequestHeader, ClusterRequest, keep_alive, kept_alive, keep_alive_object_service,
  cluster_request_encoder, cluster_request_decoder, read_request_ids,
}
use muti.Messages.RoundTrip.{
  IsRequestHeader, IsKeepAlive, service_request, cluster_request_decoder-encoder,
}
use muti.Messages.Exchange.{IsClusterHeader, Answers}
use muti.Messages.KeepAlive.{keep_alive-Answers-known}
use muti.Tests.Samples.{parsed, parsed-Indexes}

abbrev pub header : ℕ → RequestHeader
header id = record { resource_id = 0; request_id = id; sequence = 77 }

pub header-IsClusterHeader : (id : ℕ) → id < 9 → IsClusterHeader (header id)
header-IsClusterHeader id h = record {
  resource_id = refl;
  request_id = omega arith;
  sequence = omega arith;
}

header-IsRequestHeader : (id : ℕ) → id < 9 → IsRequestHeader (header id)
header-IsRequestHeader id h = record {
  resource_id = omega arith;
  request_id = omega arith;
  sequence = omega arith;
}

abbrev pub report : ℕ → KeepAliveRequest
report id = record { version = 3; os_id = id; status = 3 }

pub report-IsKeepAlive : (id : ℕ) → id < 10 → IsKeepAlive (report id)
report-IsKeepAlive id h = record {
  version = omega arith;
  os_id = omega arith;
  status = omega arith;
}

abbrev request : ClusterRequest
request = record { header = header 4; body = keep_alive (report 9) }

cluster_request_decoder-encoder_example :
    (buf : Bytes) × (cluster_request_encoder keep_alive_object_service request ≡ ok buf)
    × (cluster_request_decoder keep_alive_object_service (buf ++ 5 ∷ []) ≡ ok (request, 5 ∷ []))
    × (read_request_ids (buf ++ 5 ∷ []) ≡ ok (0, 4))
cluster_request_decoder-encoder_example =
    cluster_request_decoder-encoder keep_alive_object_service request (5 ∷ [])
      (header-IsRequestHeader 4 (omega arith))
      (service_request (report 9) (report-IsKeepAlive 9 (omega arith)))

keep_alive-Answers-known_example :
    (os : ObjectService) × (next : ℕ) × (get_elem? parsed.object_service_list 1 ≡ some os)
    × (next_status os.status 3 ≡ ok next)
    × Answers keep_alive_object_service parsed request []
        (kept_alive (record { version = 3; status = next }))
        (set_status parsed 1 os next)
keep_alive-Answers-known_example =
    keep_alive-Answers-known parsed (header 4) (report 9) [] (record { id = 9; place = 1 })
      parsed-Indexes (omega arith) (omega arith) (header-IsClusterHeader 4 (omega arith)) refl
      (report-IsKeepAlive 9 (omega arith)) (omega arith) refl
