-- ===== src/Tests/Starters.antt =====
-- An object service that starts at the map of two services.
use muti.Common.{◌≡◌, refl, true, some, [], ◌∷◌, ok}
use muti.Wire.{Bytes, read_u32, u32_bytes, u16_bytes}
use muti.ClusterMap.Codec.{
  cluster_map_parse_object_service_map, cluster_map_dump_object_service_map,
  cluster_map_dump_object_service_map_length,
}
use muti.Messages.{latest_map, answer}
use muti.Agent.Starting.{
  returned, start_again, fetch_from_mon, fetch_callback, init_cluster_map_object_service,
}
use muti.Tests.Samples.{two_services}
use muti.Tests.Exchanges.{header}

-- The file is cut off after 2 bytes: the map of the monitor is fetched, but nothing keeps alive.
cut_off_file :
    (bin : Bytes) × (init_cluster_map_object_service true true
        (some (1 ∷ 2 ∷ []))
        true
        (answer (header 1) (latest_map two_services))
        true
      ≡ ok (returned true (some two_services) (some bin)))
unfolding init_cluster_map_object_service start_again fetch_from_mon fetch_callback
    cluster_map_parse_object_service_map read_u32 cluster_map_dump_object_service_map u32_bytes
    u16_bytes cluster_map_dump_object_service_map_length
cut_off_file = (_, refl)
