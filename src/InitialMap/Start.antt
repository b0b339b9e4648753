-- ===== src/InitialMap/Start.antt =====
-- The first start of the monitor, from a configuration, and the starts after it, from its own file.
use muti.Common.{
  ℕ, zero, suc, ◌+◌, ◌-◌, ◌*◌, ◌%◌, ◌^◌, ◌<◌, ◌≤◌, ◌≡◌, refl, sym, ap, subst, ◌∙◌, List, [], ◌∷◌,
  map, length, length-map, length-append, length-replicate, replicate, All, All-append, append-nil,
  get_elem?, Bool, true, Option, none, some, ok, aborted, arith,
}
use native.Mathlib.Nat.{mod-eq_of_lt}
use muti.HashMap.{Map}
use muti.Wire.{Bytes, IsByte, sign_extend8}
use muti.ClusterMap.{
  ObjectService, ServiceRef, ObjectServiceMap, normal, updating, network_host_len,
}
use muti.ClusterMap.Index.{Indexes, init_os_map-Indexes}
use muti.ClusterMap.Codec.{cluster_map_parse_object_service_map}
use muti.ClusterMap.Codec.Encoding.{IsObjectService, IsUnique}
use muti.ClusterMap.Codec.RoundTrip.{cluster_map_parse-dump}
use muti.InitialMap.{cmm_fill_bsets}
use muti.InitialMap.Config.{ConfigLibrary, required, cmm_parse_cluster_map, init_cluster_map_mon}
use muti.InitialMap.Described.{
  ServiceConfig, IsServiceConfig, service_of, HasService, scan_item-HasNumber, Describes,
  parse_services-HasService,
}
use muti.InitialMap.Kept.{IsService}
use muti.InitialMap.Filled.{IsSpreadable, cmm_fill_bsets-IsWellFormed}

-- The numbers of a configuration fit their fields, the bsets are q times as many as the services, and
-- no two services have one id.
pub record IsConfig (junk_byte q bset_length replicas : ℕ) (services : List ServiceConfig)
    : Type 0 where
  pub some_service : 0 < length services
  pub some_share : 0 < q
  pub even : bset_length ≡ q * length services
  pub fits : bset_length * (4 + replicas * 4) + length services * 141 + 14 < 2 ^ 32
  pub replica : replicas < 2 ^ 16
  pub service_length : length services ≤ 2 ^ 30
  pub valid : All IsServiceConfig services
  pub unique : IsUnique [] (map (service_of junk_byte) services)

junk-IsByte : (n b : ℕ) → b < 256 → All IsByte (replicate n b)
junk-IsByte zero b h = tt
junk-IsByte (suc n) b h = (h, junk-IsByte n b h)

service_of-IsObjectService :
    (junk_byte : ℕ) (services : List ServiceConfig)
    → junk_byte < 256
    → All IsServiceConfig services
    → All IsObjectService (map (service_of junk_byte) services)
unfolding sign_extend8
service_of-IsObjectService junk_byte [] small h = tt
service_of-IsObjectService junk_byte (s ∷ services) small h =
    let free = network_host_len - length s.host in
    (
      record {
        id = h.0.id;
        host = (
          omega (
            arith,
            length-append s.host (0 ∷ replicate free junk_byte),
            length-replicate free junk_byte,
            h.0.host.0,
          ),
          All-append IsByte s.host (0 ∷ replicate free junk_byte) h.0.host.1
              (omega arith, junk-IsByte free junk_byte small),
        );
        port = h.0.port;
        status = refl;
        bset_length = omega arith;
        bset_count = refl;
        bsets = tt;
      },
      service_of-IsObjectService junk_byte services small h.1,
    )

module _ {J : Type 0} (lib : ConfigLibrary J) (junk_byte junk : ℕ) where
  -- The map before its bsets are spread.
  abbrev read_map : ℕ → ℕ → List ServiceConfig → Map ServiceRef → ObjectServiceMap
  read_map bset_length replicas services os_map = record {
    version = 0;
    status = updating;
    object_service_length = length services;
    object_service_list = map (service_of junk_byte) services;
    os_map = os_map;
    bset_length = bset_length;
    bset = [];
    bset_replica_size = replicas;
  }

  cmm_parse-read_map :
      (buffer : Bytes) (q bset_length replicas : ℕ) (services : List ServiceConfig)
      → Describes lib buffer bset_length replicas services
      → IsConfig junk_byte q bset_length replicas services
      → (os_map : Map ServiceRef) × (cmm_parse_cluster_map lib junk_byte junk buffer
          ≡ cmm_fill_bsets junk (read_map bset_length replicas services os_map))
        × Indexes os_map (map (service_of junk_byte) services)
  unfolding cmm_parse_cluster_map required
  cmm_parse-read_map buffer q bset_length replicas services d v =
      let count : lib.get_array_size d.array % 2 ^ 32 ≡ length services =
        ap (λ t. t % 2 ^ 32) d.size ∙ mod-eq_of_lt (omega (arith, v.service_length)) in
      let (start, made, empty) = init_os_map-Indexes (length services) v.service_length in
      let (os_map, run, index) =
        parse_services-HasService lib junk_byte d.array [] services start
          (λ k s e.
            subst (λ t. HasService lib (lib.get_array_item d.array t) s) (omega arith)
              (d.each k s e))
          v.valid v.unique (empty v.some_service) in
      (
        os_map,
        rw
            (
              d.parsed,
              d.bsets.found,
              scan_item-HasNumber lib d.bsets,
              d.replica.found,
              scan_item-HasNumber lib d.replica,
              d.found,
              count,
              made,
              run,
            )
            refl,
        index,
      )

  -- If malloc left a byte in the hosts, and the configuration file is the text of a cluster with
  -- services under distinct ids, with a whole number q of bsets for each of them, and with numbers and
  -- hosts that fit their fields and the lengths that are computed from them: the first start of the
  -- monitor makes a map in which the service at each place is that of the configuration, offline, with
  -- ids of bsets that there are; it writes a file of that map; and each later start reads from that
  -- file the same map, with normal status and an index of its services, and leaves the file alone,
  -- whatever the configuration is then.
  pub restart_keeps_map :
      (buffer : Bytes) (q bset_length replicas : ℕ) (services : List ServiceConfig)
      → junk_byte < 256
      → Describes lib buffer bset_length replicas services
      → IsConfig junk_byte q bset_length replicas services
      → (m : ObjectServiceMap) × (bin : Bytes) × (os_map : Map ServiceRef) × (init_cluster_map_mon
            lib junk_byte junk none
            (some buffer)
            true
          ≡ ok (m, bin))
        × ((k : ℕ) (os : ObjectService)
            → get_elem? m.object_service_list k ≡ some os
            → (s : ObjectService) × (get_elem? (map (service_of junk_byte) services) k ≡ some s)
              × IsService bset_length s os)
        × (length m.object_service_list ≡ length services)
        × ((init : Option Bytes) (writes : Bool)
            → init_cluster_map_mon lib junk_byte junk (some bin) init writes
              ≡ ok (record m { status = normal; os_map = os_map }, bin))
        × Indexes os_map m.object_service_list
  unfolding init_cluster_map_mon required
  restart_keeps_map buffer q bset_length replicas services small d v =
      let (index₀, parsed, indexed) =
        cmm_parse-read_map buffer q bset_length replicas services d v in
      let before = read_map bset_length replicas services index₀ in
      let spreadable : IsSpreadable q before = record {
        counted = sym (length-map (service_of junk_byte) services);
        some_service = v.some_service;
        some_share = v.some_share;
        even = v.even;
        fits = v.fits;
        version = omega arith;
        replica = v.replica;
        service_length = v.service_length;
        services = service_of-IsObjectService junk_byte services small v.valid;
        unique = v.unique;
      } in
      let (m, run, good, fits, kept) = cmm_fill_bsets-IsWellFormed junk q before spreadable in
      let (bin, os_map, dumped, size, reread, index) =
        cluster_map_parse-dump m [] good fits
          (omega (arith, kept.service_length, v.some_service)) in
      let reread' : cluster_map_parse_object_service_map bin
          ≡ ok (record m { status = normal; os_map = os_map }, []) =
        ap cluster_map_parse_object_service_map (sym (append-nil bin)) ∙ reread in
      (
        m,
        bin,
        os_map,
        rw (parsed, run, dumped) refl,
        kept.service,
        kept.service_count ∙ length-map (service_of junk_byte) services,
        λ init writes. rw reread' refl,
        index,
      )

  -- The text of a cluster without object services, also one in which the name of their array is
  -- missing, stops the process.
  pub no_services_stop :
      (buffer : Bytes) (bset_length replicas : ℕ)
      → Describes lib buffer bset_length replicas []
      → (writes : Bool)
      → init_cluster_map_mon lib junk_byte junk none (some buffer) writes ≡ aborted
  unfolding init_cluster_map_mon cmm_parse_cluster_map required cmm_fill_bsets
  no_services_stop buffer bset_length replicas d writes =
      let count : lib.get_array_size d.array % 2 ^ 32 ≡ 0 = ap (λ t. t % 2 ^ 32) d.size in
      let (start, made, empty) = init_os_map-Indexes 0 (omega arith) in
      rw
        (
          d.parsed,
          d.bsets.found,
          scan_item-HasNumber lib d.bsets,
          d.replica.found,
          scan_item-HasNumber lib d.replica,
          d.found,
          count,
          made,
        )
        refl
