-- ===== src/Tests/InitialMaps.antt =====
-- Bsets that are spread over two services, and over three.
use muti.Common.{ℕ, ◌≡◌, refl, List, [], ◌∷◌, some, get_elem?, length, ok, aborted, arith}
use muti.ClusterMap.{ObjectService, ObjectServiceMap, normal, to_int, offline}
use muti.InitialMap.{cmm_fill_bsets}
use muti.InitialMap.Spread.{cmm_fill_bsets-even}

abbrev fresh : ℕ → ObjectService
fresh id = record {
  id = id;
  status = to_int offline;
  host = [];
  port = 10100;
  bset_length = 0;
  bset_ids = [];
}

abbrev cluster : List ObjectService → ℕ → ℕ → ObjectServiceMap
cluster services bset_length bset_replica_size = record {
  version = 0;
  status = normal;
  object_service_length = length services;
  object_service_list = services;
  os_map = record { slots = []; size = 0 };
  bset_length = bset_length;
  bset = [];
  bset_replica_size = bset_replica_size;
}

-- Six bsets of three replicas on two services: all replicas of the bset 3 are on the service 9.
cmm_fill_bsets-even_example :
    (m' : ObjectServiceMap) × (cmm_fill_bsets 77 (cluster (fresh 7 ∷ fresh 9 ∷ []) 6 3) ≡ ok m')
    × ((os' : ObjectService) × (get_elem? m'.object_service_list 1 ≡ some os')
        × (os'.id ≡ 9)
        × (os'.bset_length ≡ 9)
        × (length os'.bset_ids ≡ 9))
    × (get_elem? m'.bset 3 ≡ some (record { id = 3; object_service_ids = 9 ∷ 9 ∷ 9 ∷ [] }))
cmm_fill_bsets-even_example =
    cmm_fill_bsets-even 77 (cluster (fresh 7 ∷ fresh 9 ∷ []) 6 3) refl 3 1 3 (fresh 9) refl
      (omega arith) (omega arith) refl (omega arith) refl

-- Four bsets of three replicas on three services: the service 7 would get six of the twelve.
uneven : cmm_fill_bsets 77 (cluster (fresh 7 ∷ fresh 8 ∷ fresh 9 ∷ []) 4 3) ≡ aborted
unfolding cmm_fill_bsets
uneven = refl
