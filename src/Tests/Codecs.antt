-- ===== src/Tests/Codecs.antt =====
-- The theorems about the binary form of an object service map, at a map with two services.
use muti.Common.{ℕ, ◌^◌, ◌≤◌, ◌<◌, ◌≡◌, ◌⊎◌, refl, [], ◌∷◌, ◌++◌, ok, length, All, arith}
use muti.HashMap.{Map}
use muti.Wire.{Bytes, IsByte, u16_bytes, u32_bytes, words_bytes}
use muti.ClusterMap.{ServiceRef, normal, slot_size_for}
use muti.ClusterMap.Index.{Indexes, slot_size_for_ok}
use muti.ClusterMap.Codec.{
  cluster_map_dump_object_service_map, cluster_map_dump_object_service_map_length,
  cluster_map_parse_object_service_map,
}
use muti.ClusterMap.Codec.Encoding.{
  IsWellFormed, map_bytes, bsets_bytes, bset_bytes, services_bytes, service_bytes,
}
use muti.ClusterMap.Codec.RoundTrip.{cluster_map_parse-dump}
use muti.ClusterMap.Codec.Sound.{cluster_map_parse_sound}
use muti.Tests.Samples.{
  two_services, two_services-IsWellFormed, two_services-FitsLength, bytes_checked, all_bytes,
  parsed, parsed_run,
}

cluster_map_parse-dump_example :
    (buf : Bytes) × (os_map : Map ServiceRef) × (cluster_map_dump_object_service_map two_services
        (cluster_map_dump_object_service_map_length two_services)
      ≡ ok buf)
    × (length buf ≡ cluster_map_dump_object_service_map_length two_services)
    × (cluster_map_parse_object_service_map (buf ++ 1 ∷ 2 ∷ [])
        ≡ ok (record two_services { status = normal; os_map = os_map }, 1 ∷ 2 ∷ []))
    × Indexes os_map two_services.object_service_list
cluster_map_parse-dump_example =
    cluster_map_parse-dump two_services (1 ∷ 2 ∷ []) two_services-IsWellFormed
      two_services-FitsLength (omega arith)

-- The buffer of that dump.
abbrev buffer : Bytes
buffer = map_bytes two_services ++ []

buffer_bytes : All IsByte buffer
unfolding map_bytes all_bytes u32_bytes u16_bytes bsets_bytes bset_bytes words_bytes services_bytes
    service_bytes
buffer_bytes = bytes_checked buffer refl

cluster_map_parse_sound_example :
    IsWellFormed parsed
    × (parsed.status ≡ normal)
    × (buffer ≡ map_bytes parsed ++ [])
    × ((parsed.object_service_length ≡ 0) ⊎ Indexes parsed.os_map parsed.object_service_list)
cluster_map_parse_sound_example = cluster_map_parse_sound buffer parsed [] buffer_bytes parsed_run

slot_size_for_ok_example : (i : ℕ) × (slot_size_for 5 ≡ ok (2 ^ i)) × (5 ≤ 2 ^ i) × (i < 31)
slot_size_for_ok_example = slot_size_for_ok 5 (omega arith) (omega arith)
