-- ===== src/InitialMap/Config.antt =====
-- libs/cluster/ClusterMapMon.c: the configuration of a new cluster, from which the monitor makes its
-- first map, and the start of the monitor.
-- cJSON and `sscanf` are parameters. A file is the bytes of it, or none if it cannot be opened.
use muti.Common.{
  ℕ, zero, suc, ◌+◌, ◌-◌, ◌%◌, ◌^◌, List, [], ◌∷◌, ◌++◌, length, replicate, Bool, Option, none,
  some, Outcome, ok, failed, aborted, ◌>>=◌, ltb, if◌then◌else◌,
}
use muti.HashMap.{Map, put}
use muti.Wire.{Bytes}
use muti.ClusterMap.{
  ObjectService, ServiceRef, ObjectServiceMap, updating, to_int, offline, network_host_len,
  param_of, cluster_map_init_os_map,
}
use muti.ClusterMap.Codec.{
  cluster_map_dump_object_service_map_length, cluster_map_dump_object_service_map,
  cluster_map_parse_object_service_map,
}
use muti.InitialMap.{cmm_fill_bsets}

-- The names that the code looks up.
pub data ConfigKey : Type 0 where
  bset_length : ConfigKey
  bset_replica_size : ConfigKey
  object_services : ConfigKey
  id : ConfigKey
  host : ConfigKey
  port : ConfigKey

-- What the code uses of cJSON, with a type for `cJSON*` other than NULL, and the conversions `%u` of
-- `sscanf` into a uint32_t and a uint16_t. `valuestring` is NULL for an item that is no string.
pub record ConfigLibrary (J : Type 0) : Type 0 where
  pub parse : Bytes → Option J
  pub get_object_item : Option J → ConfigKey → Option J
  pub get_array_size : Option J → ℕ
  pub get_array_item : Option J → ℕ → Option J
  pub valuestring : J → Option Bytes
  pub scan_u32 : Bytes → Option ℕ
  pub scan_u16 : Bytes → Option ℕ

-- What has to be there.
unfoldable pub required {ℓ} : {A : Type ℓ} → Option A → Outcome A
required none = failed
required (some a) = ok a

-- A string that is read without a test for NULL.
unfoldable pub string_of : {J : Type 0} → ConfigLibrary J → J → Outcome Bytes
string_of lib js = elim (lib.valuestring js) as (λ _. Outcome Bytes) [
  | none ↦ aborted
  | some s ↦ ok s
]

-- `strcpy` into the host of a new service; behind the string is what malloc left.
unfoldable pub copy_host : ℕ → Bytes → Outcome Bytes
copy_host junk s =
    if ltb network_host_len (length s)
    then aborted
    else ok (s ++ 0 ∷ replicate (network_host_len - length s) junk)

-- `put`, and `goto out1` if there was a service with this id.
unfoldable pub put_new_service : Map ServiceRef → ObjectService → ℕ → Outcome (Map ServiceRef)
put_new_service m os place = do
  (v, m') ← put (param_of m) m os.id (record { id = os.id; place = place })
  elim v [ none ↦ ok m' | some _ ↦ failed ]

module _ {J : Type 0} (lib : ConfigLibrary J) where
  -- An item whose string is read by `sscanf`.
  unfoldable pub scan_item : (Bytes → Option ℕ) → J → Outcome ℕ
  unfolding required string_of
  scan_item scan js = do s ← string_of lib js; required (scan s)

-- `junk_byte` is what malloc left in a host.
module _ {J : Type 0} (lib : ConfigLibrary J) (junk_byte : ℕ) where
  -- The fields of one service. They are looked up before any is read.
  unfoldable pub parse_config_service : Option J → Outcome ObjectService
  unfolding required scan_item string_of copy_host
  parse_config_service js_os = do
    js_id ← required (lib.get_object_item js_os id)
    js_host ← required (lib.get_object_item js_os host)
    js_port ← required (lib.get_object_item js_os port)
    os_id ← scan_item lib lib.scan_u32 js_id
    name ← string_of lib js_host
    os_host ← copy_host junk_byte name
    os_port ← scan_item lib lib.scan_u32 js_port
    ok (record {
      id = os_id;
      status = to_int offline;
      host = os_host;
      port = os_port;
      bset_length = 0;
      bset_ids = [];
    })

  -- The loop: `count` rounds are left, and `place` is the index of the next.
  unfoldable pub parse_config_services :
      ℕ → ℕ → Map ServiceRef → Option J → Outcome (List ObjectService × Map ServiceRef)
  unfolding parse_config_service put_new_service
  parse_config_services zero place m js_object_services = ok ([], m)
  parse_config_services (suc count) place m js_object_services = do
    os ← parse_config_service (lib.get_array_item js_object_services place)
    m₁ ← put_new_service m os place
    (services, m₂) ← parse_config_services count (place + 1) m₁ js_object_services
    ok (os ∷ services, m₂)

-- `junk` is what malloc left in the array of a bset.
module _ {J : Type 0} (lib : ConfigLibrary J) (junk_byte junk : ℕ) where
  -- `cmmParseClusterMap`
  unfoldable pub cmm_parse_cluster_map : Bytes → Outcome ObjectServiceMap
  unfolding required scan_item parse_config_services
  cmm_parse_cluster_map buffer = do
    root ← required (lib.parse buffer)
    js_bset_length ← required (lib.get_object_item (some root) bset_length)
    bsets ← scan_item lib lib.scan_u32 js_bset_length
    js_bset_replica_size ← required (lib.get_object_item (some root) bset_replica_size)
    replicas ← scan_item lib lib.scan_u16 js_bset_replica_size
    let js_object_services = lib.get_object_item (some root) object_services
    let count = lib.get_array_size js_object_services % 2 ^ 32
    m ← cluster_map_init_os_map count
    (services, m') ← parse_config_services lib junk_byte count 0 m js_object_services
    cmm_fill_bsets junk (record {
      version = 0;
      status = updating;
      object_service_length = count;
      object_service_list = services;
      os_map = m';
      bset_length = bsets;
      bset = [];
      bset_replica_size = replicas;
    })

  -- `initClusterMapMon`, on the file of the map, which the monitor writes at its first start, and the
  -- configuration file: the map, and the file of the map afterwards. `writes` says whether that file
  -- can be opened to be written.
  unfoldable pub init_cluster_map_mon :
      Option Bytes → Option Bytes → Bool → Outcome (ObjectServiceMap × Bytes)
  unfolding cmm_parse_cluster_map required
  init_cluster_map_mon (some bin) init writes = do
    (os_map, rest) ← cluster_map_parse_object_service_map bin
    ok (os_map, bin)
  init_cluster_map_mon none init writes = do
    buffer ← required init
    os_map ← cmm_parse_cluster_map buffer
    let buf_len = cluster_map_dump_object_service_map_length os_map
    bin ← cluster_map_dump_object_service_map os_map buf_len
    if writes then ok (os_map, bin) else aborted
