-- ===== src/ClusterMap/Codec/RoundTrip.antt =====
-- A dump of an object service map parses back.
use muti.Common.{
  ℕ, zero, suc, ◌+◌, ◌%◌, ◌<◌, ◌≡◌, refl, sym, subst, List, [], ◌∷◌, ◌++◌, append_assoc, append-nil,
  ok, All, length, length-append, arith,
}
use muti.HashMap.{Map}
use muti.Wire.{Bytes, read_u8, u16_bytes, u32_bytes, words_bytes}
use muti.Wire.Laws.{read_u16-u16_bytes, read_u32-u32_bytes, read_bytes_of, read_words_of}
use muti.ClusterMap.{ObjectService, BSet, ObjectServiceMap, normal, ServiceRef}
use muti.ClusterMap.Index.{Indexes, init_os_map-Indexes, put_service-Indexes}
use muti.ClusterMap.Codec.{
  parse_bset, parse_bsets, parse_service, parse_services, cluster_map_parse_object_service_map,
  cluster_map_dump_object_service_map, cluster_map_dump_object_service_map_length,
}
use muti.ClusterMap.Codec.Encoding.{
  bset_bytes, bsets_bytes, service_bytes, services_bytes, map_bytes, IsBSet, IsObjectService,
  IsUnique, IsWellFormed, FitsLength, cluster_map_dump-map_bytes,
}

parse_bset-bset_bytes :
    (replica : ℕ) (b : BSet) (rest : Bytes)
    → IsBSet replica b
    → parse_bset replica (bset_bytes b ++ rest) ≡ ok (b, rest)
unfolding parse_bset bset_bytes
parse_bset-bset_bytes replica b rest v = rw (
  append_assoc,
  read_u32-u32_bytes b.id (words_bytes b.object_service_ids ++ rest) v.id,
  read_words_of replica b.object_service_ids rest v.replicas v.services,
)

parse_bsets-bsets_bytes :
    (replica n : ℕ) (bs : List BSet) (rest : Bytes)
    → length bs ≡ n
    → All (IsBSet replica) bs
    → parse_bsets replica n (bsets_bytes bs ++ rest) ≡ ok (bs, rest)
unfolding parse_bsets bsets_bytes
parse_bsets-bsets_bytes replica zero [] rest h all = refl
parse_bsets-bsets_bytes replica zero (b ∷ bs) rest h all = absurd (omega arith)
parse_bsets-bsets_bytes replica (suc n) [] rest h all = absurd (omega arith)
parse_bsets-bsets_bytes replica (suc n) (b ∷ bs) rest h all = rw (
  append_assoc,
  parse_bset-bset_bytes replica b (bsets_bytes bs ++ rest) all.0,
  parse_bsets-bsets_bytes replica n bs rest (omega arith) all.1,
)

parse_service-service_bytes :
    (os : ObjectService) (rest : Bytes)
    → IsObjectService os
    → parse_service (service_bytes os ++ rest) ≡ ok (os, rest)
unfolding parse_service service_bytes read_u8
parse_service-service_bytes os rest v =
    let ids = words_bytes os.bset_ids ++ rest in
    let tail = (os.status % 256) ∷ (u32_bytes os.bset_length ++ ids) in
    simp (
      append_assoc,
      read_u32-u32_bytes os.id (os.host ++ (u32_bytes os.port ++ tail)) v.id,
      read_bytes_of 128 os.host (u32_bytes os.port ++ tail) v.host.0,
      read_u32-u32_bytes os.port tail v.port,
      read_u32-u32_bytes os.bset_length ids v.bset_length,
      read_words_of os.bset_length os.bset_ids rest v.bset_count v.bsets,
      v.status,
    )

-- The loop over the services, from an index of those before them.
parse_services-services_bytes :
    (n : ℕ) (before services : List ObjectService) (m : Map ServiceRef) (rest : Bytes)
    → length services ≡ n
    → All IsObjectService services
    → IsUnique before services
    → Indexes m before
    → (m' : Map ServiceRef) × (parse_services n (length before) m (services_bytes services ++ rest)
        ≡ ok ((services, m'), rest))
      × Indexes m' (before ++ services)
unfolding parse_services services_bytes
parse_services-services_bytes zero before [] m rest h all unique index =
    (m, refl, rw append-nil index)
parse_services-services_bytes zero before (os ∷ services) m rest h all unique index =
    absurd (omega arith)
parse_services-services_bytes (suc n) before [] m rest h all unique index = absurd (omega arith)
parse_services-services_bytes (suc n) before (os ∷ services) m rest h all unique index =
    let (m₁, put_run, index₁) = put_service-Indexes m before os index unique.0 in
    let (m₂, run, index₂) =
      parse_services-services_bytes n (before ++ os ∷ []) services m₁ rest (omega arith) all.1
        unique.1 index₁ in
    let next : length (before ++ os ∷ []) ≡ length before + 1 = length-append before (os ∷ []) in
    let run' : parse_services n (length before + 1) m₁ (services_bytes services ++ rest)
        ≡ ok ((services, m₂), rest) =
      subst
        (λ k. parse_services n k m₁ (services_bytes services ++ rest) ≡ ok ((services, m₂), rest))
        next run in
    (
      m₂,
      rw (
        append_assoc,
        parse_service-service_bytes os (services_bytes services ++ rest) all.0,
        put_run,
        run',
      ),
      rw append_assoc at index₂,
    )

-- The result of the loop, from the map that `clusterMapInitOSMap` makes.
parse_services-init :
    (n : ℕ) (services : List ObjectService) (m : Map ServiceRef) (rest : Bytes)
    → length services ≡ n
    → All IsObjectService services
    → IsUnique [] services
    → (0 < n → Indexes m [])
    → (m' : Map ServiceRef) × (parse_services n 0 m (services_bytes services ++ rest)
        ≡ ok ((services, m'), rest))
      × (0 < n → Indexes m' services)
unfolding parse_services services_bytes
parse_services-init zero [] m rest h all unique index = (m, refl, index)
parse_services-init zero (os ∷ services) m rest h all unique index = absurd (omega arith)
parse_services-init (suc n) services m rest h all unique index =
    let (m', run, index') =
      parse_services-services_bytes (suc n) [] services m rest h all unique (index (omega arith)) in
    (m', run, λ pos. index')

-- Parsing the bytes of a well-formed map gives back the map and what follows its bytes. Its status
-- is normal, and its `os_map` is an index of its services, if it has any.
pub cluster_map_parse-map_bytes :
    (m : ObjectServiceMap) (rest : Bytes)
    → IsWellFormed m
    → (os_map : Map ServiceRef) × (cluster_map_parse_object_service_map (map_bytes m ++ rest)
        ≡ ok (record m { status = normal; os_map = os_map }, rest))
      × (0 < m.object_service_length → Indexes os_map m.object_service_list)
unfolding cluster_map_parse_object_service_map map_bytes
cluster_map_parse-map_bytes m rest v =
    let lists = services_bytes m.object_service_list ++ rest in
    let counts = u32_bytes m.object_service_length ++ (bsets_bytes m.bset ++ lists) in
    let (start, init_run, index) = init_os_map-Indexes m.object_service_length v.service_length in
    let (os_map, run, index') =
      parse_services-init m.object_service_length m.object_service_list start rest v.service_count
        v.services v.unique index in
    (
      os_map,
      simp (
        append_assoc,
        read_u32-u32_bytes m.version
            (u32_bytes m.bset_length ++ (u16_bytes m.bset_replica_size ++ counts)) v.version,
        read_u32-u32_bytes m.bset_length (u16_bytes m.bset_replica_size ++ counts) v.bset_length,
        read_u16-u16_bytes m.bset_replica_size counts v.replica,
        read_u32-u32_bytes m.object_service_length (bsets_bytes m.bset ++ lists)
            (omega (arith, v.service_length)),
        init_run,
        parse_bsets-bsets_bytes m.bset_replica_size m.bset_length m.bset lists v.bset_count v.bsets,
        run,
      ),
      index',
    )

-- A well-formed map with a service, whose length fits the sums of the length function, survives a
-- dump: the dump with that length succeeds and has that length, and the parser takes exactly its
-- bytes off the front of a buffer and returns the map, with normal status and an index of its
-- services.
pub cluster_map_parse-dump :
    (m : ObjectServiceMap) (rest : Bytes)
    → IsWellFormed m
    → FitsLength m
    → 0 < m.object_service_length
    → (buf : Bytes) × (os_map : Map ServiceRef) × (cluster_map_dump_object_service_map m
          (cluster_map_dump_object_service_map_length m)
        ≡ ok buf)
      × (length buf ≡ cluster_map_dump_object_service_map_length m)
      × (cluster_map_parse_object_service_map (buf ++ rest)
          ≡ ok (record m { status = normal; os_map = os_map }, rest))
      × Indexes os_map m.object_service_list
cluster_map_parse-dump m rest v fits pos =
    let (size, dumped) = cluster_map_dump-map_bytes m v fits in
    let (os_map, parsed, index) = cluster_map_parse-map_bytes m rest v in
    (map_bytes m, os_map, dumped, sym size, parsed, index pos)
