-- ===== src/ClusterMap.antt =====
-- libs/cluster/ClusterMap.h and the part of libs/cluster/ClusterMap.c that builds and searches the
-- map from object service ids to object services.
-- A pointer to an `ObjectService` in `os_map` is its id, which never changes and is the key that the
-- hash map reads, with its place in `object_service_list`. The list is a list in traversal order.
-- `element`, the link of the list, and `user_define`, which no code reads, have no field.
pub mod Index
pub mod Codec
pub mod Shared
use muti.Common.{
  ℕ, zero, suc, ◌+◌, ◌-◌, ◌%◌, ◌^◌, List, [], ◌∷◌, ◌++◌, Option, none, some, Outcome, ok, failed,
  aborted, ◌>>=◌, length, ltb, if◌then◌else◌,
}
use muti.HashMap.{MapHashLinkedParam, Map, get, init_map_hash_linked}
use muti.Wire.{Bytes}

pub data ObjectServiceStatus : Type 0 where
  online : ObjectServiceStatus
  syncing : ObjectServiceStatus
  offline : ObjectServiceStatus
  ready_to_join : ObjectServiceStatus
  error : ObjectServiceStatus

-- The int that a field of this type holds. What a buffer holds is not checked on the way in, so the
-- field of a parsed record may hold another number.
abbrev pub to_int : ObjectServiceStatus → ℕ
to_int online = 0
to_int syncing = 1
to_int offline = 2
to_int ready_to_join = 3
to_int error = 4

-- `NETWORK_HOST_LEN`
abbrev pub network_host_len : ℕ
network_host_len = 127

-- `port` is an int32_t, as its bit pattern.
pub record ObjectService : Type 0 where
  pub id : ℕ
  pub status : ℕ
  pub host : Bytes
  pub port : ℕ
  pub bset_length : ℕ
  pub bset_ids : List ℕ

pub record BSet : Type 0 where
  pub id : ℕ
  pub object_service_ids : List ℕ

pub data ObjectServiceMapStatus : Type 0 where
  normal : ObjectServiceMapStatus
  updating : ObjectServiceMapStatus

-- A pointer to an object service: the key that the hash map finds there, and its place in the list.
pub record ServiceRef : Type 0 where
  pub id : ℕ
  pub place : ℕ

-- `reference` counts who holds the map; Agent models it for an object service.
pub record ObjectServiceMap : Type 0 where
  pub version : ℕ
  pub status : ObjectServiceMapStatus
  pub object_service_length : ℕ
  pub object_service_list : List ObjectService
  pub os_map : Map ServiceRef
  pub bset_length : ℕ
  pub bset : List BSet
  pub bset_replica_size : ℕ

-- The difference of two uint32_t keys, as an int's bit pattern.
pub os_int32_key_compare : ℕ → ℕ → ℕ
os_int32_key_compare key key1 = (key % 2 ^ 32 + 2 ^ 32 - key1 % 2 ^ 32) % 2 ^ 32

pub os_int32_hash : ℕ → ℕ
os_int32_hash key = key % 2 ^ 32

-- `while (ssize < n) { ssize = 1 << i; i++; }`: the int shift is defined up to 30. The fuel is the
-- width of an int.
unfoldable pub slot_size_loop : ℕ → ℕ → ℕ → ℕ → Outcome ℕ
slot_size_loop zero n ssize i = aborted
slot_size_loop (suc fuel) n ssize i =
    let again = if ltb i 31 then slot_size_loop fuel n (2 ^ i) (i + 1) else aborted in
    if ltb ssize n then again else ok ssize

unfoldable pub slot_size_for : ℕ → Outcome ℕ
unfolding slot_size_loop
slot_size_for n = slot_size_loop 32 n 0 1

abbrev pub os_param : ℕ → MapHashLinkedParam ℕ ServiceRef
os_param ssize = record {
  compare_method = os_int32_key_compare;
  hash_method = os_int32_hash;
  key_of = λ r. r.id;
  slot_size = ssize;
}

unfoldable pub cluster_map_init_os_map : ℕ → Outcome (Map ServiceRef)
unfolding slot_size_for init_map_hash_linked
cluster_map_init_os_map n = do ssize ← slot_size_for n; init_map_hash_linked (os_param ssize)

-- The parameters that `os_map` was made with: it has as many slots as its slot size.
abbrev pub param_of : Map ServiceRef → MapHashLinkedParam ℕ ServiceRef
param_of m = os_param (length m.slots)

unfoldable pub cluster_map_get_object_service : ObjectServiceMap → ℕ → Outcome (Option ServiceRef)
unfolding get
cluster_map_get_object_service os_map os_id = get (param_of os_map.os_map) os_map.os_map os_id
