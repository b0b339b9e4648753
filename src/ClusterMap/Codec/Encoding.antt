-- ===== src/ClusterMap/Codec/Encoding.antt =====
-- The bytes of an object service map as a function of it, which the dump of
-- libs/cluster/ClusterMap.c writes, and the maps that have such bytes.
use muti.Common.{
  ℕ, zero, suc, ◌+◌, ◌*◌, ◌%◌, ◌^◌, ◌≤◌, ◌<◌, ◌≡◌, refl, sym, subst, List, [], ◌∷◌, ◌++◌, none, ok,
  All, length, length-append, arith, ==_iff,
}
use muti.Wire.{Bytes, IsByte, sign_extend8, u16_bytes, u32_bytes, words_bytes}
use muti.Wire.Laws.{length-u16_bytes, length-u32_bytes, length-words_bytes}
use muti.ClusterMap.{ObjectService, BSet, ObjectServiceMap, network_host_len}
use muti.ClusterMap.Index.{locate}
use muti.ClusterMap.Codec.{
  dump_bset_ids_length, cluster_map_dump_object_service_map_length, dump_words, dump_bsets,
  dump_services, cluster_map_dump_object_service_map,
}

unfoldable pub bset_bytes : BSet → Bytes
bset_bytes b = u32_bytes b.id ++ words_bytes b.object_service_ids

unfoldable pub bsets_bytes : List BSet → Bytes
bsets_bytes [] = []
bsets_bytes (b ∷ bs) = bset_bytes b ++ bsets_bytes bs

unfoldable pub service_bytes : ObjectService → Bytes
service_bytes os =
    u32_bytes os.id
    ++ (os.host
        ++ (u32_bytes os.port
            ++ ((os.status % 256) ∷ (u32_bytes os.bset_length ++ words_bytes os.bset_ids))))

unfoldable pub services_bytes : List ObjectService → Bytes
services_bytes [] = []
services_bytes (os ∷ rest) = service_bytes os ++ services_bytes rest

unfoldable pub map_bytes : ObjectServiceMap → Bytes
map_bytes m =
    u32_bytes m.version
    ++ (u32_bytes m.bset_length
        ++ (u16_bytes m.bset_replica_size
            ++ (u32_bytes m.object_service_length
                ++ (bsets_bytes m.bset ++ services_bytes m.object_service_list))))

abbrev pub IsU32 : ℕ → Type 0
IsU32 n = n < 2 ^ 32

pub record IsBSet (replica : ℕ) (b : BSet) : Type 0 where
  pub id : IsU32 b.id
  pub replicas : length b.object_service_ids ≡ replica
  pub services : All IsU32 b.object_service_ids

-- The status is one that a signed byte holds.
pub record IsObjectService (os : ObjectService) : Type 0 where
  pub id : IsU32 os.id
  pub host : (length os.host ≡ network_host_len + 1) × All IsByte os.host
  pub port : IsU32 os.port
  pub status : sign_extend8 (os.status % 256) ≡ os.status
  pub bset_length : IsU32 os.bset_length
  pub bset_count : length os.bset_ids ≡ os.bset_length
  pub bsets : All IsU32 os.bset_ids

-- No service has the id of one before it.
abbrev pub IsUnique : List ObjectService → List ObjectService → Type 0
IsUnique before [] = Unit
IsUnique before (os ∷ rest) = (locate os.id 0 before ≡ none) × IsUnique (before ++ os ∷ []) rest

-- The arrays have the lengths that the fields say, and each field is in its range.
pub record IsWellFormed (m : ObjectServiceMap) : Type 0 where
  pub version : IsU32 m.version
  pub replica : m.bset_replica_size < 2 ^ 16
  pub bset_length : IsU32 m.bset_length
  pub bset_count : length m.bset ≡ m.bset_length
  pub bsets : All (IsBSet m.bset_replica_size) m.bset
  pub service_length : m.object_service_length ≤ 2 ^ 30
  pub service_count : length m.object_service_list ≡ m.object_service_length
  pub services : All IsObjectService m.object_service_list
  pub unique : IsUnique [] m.object_service_list

-- The length of the dump fits the uint32_t sums that compute it.
pub record FitsLength (m : ObjectServiceMap) : Type 0 where
  pub fixed : IsU32 (
      14
      + m.bset_length * (4 + m.bset_replica_size * 4)
      + m.object_service_length * (13 + network_host_len + 1))
  pub lists : All (λ os. os.bset_length * 4 < 2 ^ 32) m.object_service_list

dump_words_all : (n : ℕ) (ws : List ℕ) → length ws ≡ n → dump_words n ws ≡ ok (words_bytes ws)
unfolding dump_words words_bytes
dump_words_all zero [] h = refl
dump_words_all zero (w ∷ ws) h = absurd (omega arith)
dump_words_all (suc n) [] h = absurd (omega arith)
dump_words_all (suc n) (w ∷ ws) h = rw (dump_words_all n ws (omega arith))

dump_bsets_all :
    (replica n : ℕ) (bs : List BSet)
    → length bs ≡ n
    → All (IsBSet replica) bs
    → dump_bsets replica n bs ≡ ok (bsets_bytes bs)
unfolding dump_bsets bsets_bytes bset_bytes
dump_bsets_all replica zero [] h all = refl
dump_bsets_all replica zero (b ∷ bs) h all = absurd (omega arith)
dump_bsets_all replica (suc n) [] h all = absurd (omega arith)
dump_bsets_all replica (suc n) (b ∷ bs) h all = rw (
  dump_words_all replica b.object_service_ids all.0.replicas,
  dump_bsets_all replica n bs (omega arith) all.1,
)

dump_services_all :
    (services : List ObjectService)
    → All IsObjectService services
    → dump_services services ≡ ok (services_bytes services)
unfolding dump_services services_bytes service_bytes
dump_services_all [] all = refl
dump_services_all (os ∷ rest) all =
    rw (dump_words_all os.bset_length os.bset_ids all.0.bset_count, dump_services_all rest all.1)

length-bsets_bytes :
    (replica : ℕ) (bs : List BSet)
    → All (IsBSet replica) bs
    → length (bsets_bytes bs) ≡ length bs * (4 + replica * 4)
unfolding bsets_bytes bset_bytes
length-bsets_bytes replica [] all = omega arith
length-bsets_bytes replica (b ∷ bs) all = omega (
  arith,
  length-append (bset_bytes b) (bsets_bytes bs),
  length-append (u32_bytes b.id) (words_bytes b.object_service_ids),
  length-u32_bytes b.id,
  length-words_bytes b.object_service_ids,
  all.0.replicas,
  length-bsets_bytes replica bs all.1,
)

length-service_bytes :
    (os : ObjectService)
    → IsObjectService os
    → length (service_bytes os) ≡ 13 + network_host_len + 1 + os.bset_length * 4
unfolding service_bytes
length-service_bytes os v =
    let ids = words_bytes os.bset_ids in
    let tail = (os.status % 256) ∷ (u32_bytes os.bset_length ++ ids) in
    omega (
      arith,
      length-append (u32_bytes os.id) (os.host ++ (u32_bytes os.port ++ tail)),
      length-append os.host (u32_bytes os.port ++ tail),
      length-append (u32_bytes os.port) tail,
      length-append (u32_bytes os.bset_length) ids,
      length-u32_bytes os.id,
      length-u32_bytes os.port,
      length-u32_bytes os.bset_length,
      length-words_bytes os.bset_ids,
      v.host.0,
      v.bset_count,
    )

length-services_bytes :
    (services : List ObjectService)
    → All IsObjectService services
    → All (λ os. os.bset_length * 4 < 2 ^ 32) services
    → length (services_bytes services)
      ≡ length services * (13 + network_host_len + 1) + dump_bset_ids_length services
unfolding services_bytes dump_bset_ids_length
length-services_bytes [] all fits = omega arith
length-services_bytes (os ∷ rest) all fits = omega (
  arith,
  length-append (service_bytes os) (services_bytes rest),
  length-service_bytes os all.0,
  fits.0,
  length-services_bytes rest all.1 fits.1,
)

length-map_bytes :
    (m : ObjectServiceMap)
    → IsWellFormed m
    → FitsLength m
    → cluster_map_dump_object_service_map_length m ≡ length (map_bytes m)
unfolding cluster_map_dump_object_service_map_length map_bytes
length-map_bytes m v fits =
    let services = services_bytes m.object_service_list in
    let lists = bsets_bytes m.bset ++ services in
    let counts = u32_bytes m.object_service_length ++ lists in
    let bsets =
      subst (λ n. length (bsets_bytes m.bset) ≡ n * (4 + m.bset_replica_size * 4)) v.bset_count
        (length-bsets_bytes m.bset_replica_size m.bset v.bsets) in
    omega (
      arith,
      fits.fixed,
      v.service_count,
      bsets,
      length-append (u32_bytes m.version)
          (u32_bytes m.bset_length ++ (u16_bytes m.bset_replica_size ++ counts)),
      length-append (u32_bytes m.bset_length) (u16_bytes m.bset_replica_size ++ counts),
      length-append (u16_bytes m.bset_replica_size) counts,
      length-append (u32_bytes m.object_service_length) lists,
      length-append (bsets_bytes m.bset) services,
      length-u32_bytes m.version,
      length-u32_bytes m.bset_length,
      length-u16_bytes m.bset_replica_size,
      length-u32_bytes m.object_service_length,
      length-services_bytes m.object_service_list v.services fits.lists,
    )

dump_of_length :
    (m : ObjectServiceMap) (total_len : ℕ)
    → IsWellFormed m
    → total_len ≡ length (map_bytes m)
    → cluster_map_dump_object_service_map m total_len ≡ ok (map_bytes m)
unfolding cluster_map_dump_object_service_map map_bytes
dump_of_length m total_len v e = rw (
  dump_bsets_all m.bset_replica_size m.bset_length m.bset v.bset_count v.bsets,
  dump_services_all m.object_service_list v.services,
  (==_iff _ total_len).1 (sym e),
)

-- The length function gives the number of bytes of a well-formed map, and the dump, called with it
-- as its callers do, passes its assert and writes those bytes.
pub cluster_map_dump-map_bytes :
    (m : ObjectServiceMap)
    → IsWellFormed m
    → FitsLength m
    → (cluster_map_dump_object_service_map_length m ≡ length (map_bytes m))
      × (cluster_map_dump_object_service_map m (cluster_map_dump_object_service_map_length m)
          ≡ ok (map_bytes m))
cluster_map_dump-map_bytes m v fits =
    let size = length-map_bytes m v fits in (size, dump_of_length m _ v size)
