-- ===== src/Tests/Samples.antt =====
-- An object service map with two object services and two bsets of one replica each.
use muti.Common.{
  ℕ, ◌≡◌, ◌<◌, refl, Bool, true, ◌&&◌, [], ◌∷◌, ◌++◌, All, replicate, length-replicate, ltb, ok,
  arith,
}
use muti.Wire.{Bytes, IsByte, sign_extend8}
use muti.ClusterMap.{ObjectService, ObjectServiceMap, normal, to_int, offline}
use muti.ClusterMap.Index.{Indexes}
use muti.ClusterMap.Codec.{cluster_map_parse_object_service_map}
use muti.ClusterMap.Codec.RoundTrip.{cluster_map_parse-map_bytes}
use muti.ClusterMap.Codec.Encoding.{map_bytes, IsObjectService, IsWellFormed, FitsLength}

abbrev pub host : Bytes
host = replicate 128 97

abbrev pub service : ℕ → ℕ → ObjectService
service id bset = record {
  id = id;
  status = to_int offline;
  host = host;
  port = 10100;
  bset_length = 1;
  bset_ids = bset ∷ [];
}

abbrev pub two_services : ObjectServiceMap
two_services = record {
  version = 3;
  status = normal;
  object_service_length = 2;
  object_service_list = service 7 0 ∷ service 9 1 ∷ [];
  os_map = record { slots = []; size = 0 };
  bset_length = 2;
  bset =
      record { id = 0; object_service_ids = 7 ∷ [] }
      ∷ record { id = 1; object_service_ids = 9 ∷ [] }
      ∷ [];
  bset_replica_size = 1;
}

unfoldable pub all_bytes : Bytes → Bool
all_bytes [] = true
all_bytes (b ∷ bs) = ltb b 256 && all_bytes bs

pub bytes_checked : (bs : Bytes) → all_bytes bs ≡ true → All IsByte bs
unfolding all_bytes
bytes_checked [] e = tt
bytes_checked (b ∷ bs) e = (ground arith, bytes_checked bs (ground arith))

host_bytes : All IsByte host
unfolding all_bytes
host_bytes = bytes_checked host refl

service-IsObjectService : (id bset : ℕ) → id < 100 → bset < 100 → IsObjectService (service id bset)
unfolding sign_extend8
service-IsObjectService id bset h k = record {
  id = omega arith;
  host = (length-replicate {A = ℕ} 128 97, host_bytes);
  port = omega arith;
  status = refl;
  bset_length = omega arith;
  bset_count = refl;
  bsets = omega arith;
}

pub two_services-IsWellFormed : IsWellFormed two_services
two_services-IsWellFormed = record {
  version = omega arith;
  replica = omega arith;
  bset_length = omega arith;
  bset_count = refl;
  bsets = (
    record { id = omega arith; replicas = refl; services = omega arith },
    (record { id = omega arith; replicas = refl; services = omega arith }, tt),
  );
  service_length = omega arith;
  service_count = refl;
  services = (
    service-IsObjectService 7 0 (omega arith) (omega arith),
    (service-IsObjectService 9 1 (omega arith) (omega arith), tt),
  );
  unique = (refl, (refl, tt));
}

pub two_services-FitsLength : FitsLength two_services
two_services-FitsLength = record { fixed = omega arith; lists = omega arith }

-- The map that a parser returns for those bytes.
abbrev pub parsed : ObjectServiceMap
parsed = record two_services {
  os_map = (cluster_map_parse-map_bytes two_services [] two_services-IsWellFormed).0;
}

pub parsed_run :
    cluster_map_parse_object_service_map (map_bytes two_services ++ []) ≡ ok (parsed, [])
parsed_run = (cluster_map_parse-map_bytes two_services [] two_services-IsWellFormed).1

pub parsed-Indexes : Indexes parsed.os_map parsed.object_service_list
parsed-Indexes =
    (cluster_map_parse-map_bytes two_services [] two_services-IsWellFormed).2 (omega arith)
