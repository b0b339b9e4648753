-- ===== src/ClusterMap/Codec.antt =====
-- The binary form of an object service map in libs/cluster/ClusterMap.c: its length, its dump and
-- its parser.
pub mod Encoding
pub mod RoundTrip
pub mod Sound
use muti.Common.{
  ℕ, zero, suc, ◌+◌, ◌*◌, ◌%◌, ◌^◌, List, [], ◌∷◌, ◌++◌, Option, none, some, Outcome, ok, failed,
  aborted, ◌>>=◌, ◌>>◌, assert, length, ◌==◌,
}
use muti.HashMap.{Map, put}
use muti.Wire.{
  Bytes, Reader, read_u8, read_u16, read_u32, read_bytes, read_words, sign_extend8, u16_bytes,
  u32_bytes,
}
use muti.ClusterMap.{
  ObjectService, BSet, ObjectServiceMap, ObjectServiceMapStatus, normal, ServiceRef,
  network_host_len, cluster_map_init_os_map, param_of,
}

-- `os->bset_length * 4` for each object service, summed up
pub dump_bset_ids_length : List ObjectService → ℕ
dump_bset_ids_length [] = 0
dump_bset_ids_length (os ∷ rest) = os.bset_length * 4 % 2 ^ 32 + dump_bset_ids_length rest

-- The first sum is of uint32_t, the loop adds to a ssize_t.
unfoldable pub cluster_map_dump_object_service_map_length : ObjectServiceMap → ℕ
unfolding dump_bset_ids_length
cluster_map_dump_object_service_map_length m =
    (14
        + m.bset_length * (4 + m.bset_replica_size * 4)
        + m.object_service_length * (13 + network_host_len + 1))
      % 2 ^ 32
    + dump_bset_ids_length m.object_service_list

-- `count` words from an array, which is read up to there
unfoldable pub dump_words : ℕ → List ℕ → Outcome Bytes
dump_words zero ws = ok []
dump_words (suc count) [] = aborted
dump_words (suc count) (w ∷ ws) = do bytes ← dump_words count ws; ok (u32_bytes w ++ bytes)

unfoldable pub dump_bset : ℕ → BSet → Outcome Bytes
unfolding dump_words
dump_bset replica bset = do
  ids ← dump_words replica bset.object_service_ids
  ok (u32_bytes bset.id ++ ids)

unfoldable pub dump_bsets : ℕ → ℕ → List BSet → Outcome Bytes
unfolding dump_bset
dump_bsets replica zero bs = ok []
dump_bsets replica (suc count) [] = aborted
dump_bsets replica (suc count) (b ∷ bs) = do
  first ← dump_bset replica b
  bytes ← dump_bsets replica count bs
  ok (first ++ bytes)

unfoldable pub dump_service : ObjectService → Outcome Bytes
unfolding dump_words
dump_service os = do
  ids ← dump_words os.bset_length os.bset_ids
  let tail = (os.status % 256) ∷ (u32_bytes os.bset_length ++ ids)
  ok (u32_bytes os.id ++ (os.host ++ (u32_bytes os.port ++ tail)))

unfoldable pub dump_services : List ObjectService → Outcome Bytes
unfolding dump_service
dump_services [] = ok []
dump_services (os ∷ rest) = do
  first ← dump_service os
  bytes ← dump_services rest
  ok (first ++ bytes)

-- `assert(len == total_len)` stands at the end
unfoldable pub cluster_map_dump_object_service_map : ObjectServiceMap → ℕ → Outcome Bytes
unfolding dump_bsets dump_services
cluster_map_dump_object_service_map m total_len = do
  bsets ← dump_bsets m.bset_replica_size m.bset_length m.bset
  services ← dump_services m.object_service_list
  let buf =
      u32_bytes m.version
      ++ (u32_bytes m.bset_length
          ++ (u16_bytes m.bset_replica_size
              ++ (u32_bytes m.object_service_length ++ (bsets ++ services))))
  assert (length buf == total_len)
  ok buf

unfoldable pub parse_bset : ℕ → Reader BSet
parse_bset replica buf = do
  (id, buf₁) ← read_u32 buf
  (ids, buf₂) ← read_words replica buf₁
  ok (record { id = id; object_service_ids = ids }, buf₂)

unfoldable pub parse_bsets : ℕ → ℕ → Reader (List BSet)
parse_bsets replica zero buf = ok ([], buf)
parse_bsets replica (suc count) buf = do
  (b, buf₁) ← parse_bset replica buf
  (bs, buf₂) ← parse_bsets replica count buf₁
  ok (b ∷ bs, buf₂)

unfoldable pub parse_service : Reader ObjectService
parse_service buf = do
  (id, buf₁) ← read_u32 buf
  (host, buf₂) ← read_bytes (network_host_len + 1) buf₁
  (port, buf₃) ← read_u32 buf₂
  (status, buf₄) ← read_u8 buf₃
  (bset_length, buf₅) ← read_u32 buf₄
  (ids, buf₆) ← read_words bset_length buf₅
  ok (
    record {
      id = id;
      status = sign_extend8 status;
      host = host;
      port = port;
      bset_length = bset_length;
      bset_ids = ids;
    },
    buf₆,
  )

-- `put` under the service's id, then `assert(v == NULL)`
unfoldable pub put_service : Map ServiceRef → ObjectService → ℕ → Outcome (Map ServiceRef)
put_service m os place = do
  (v, m') ← put (param_of m) m os.id (record { id = os.id; place = place })
  elim v [ none ↦ ok m' | some _ ↦ aborted ]

-- `place` counts the services that are in the list already
unfoldable pub parse_services :
    ℕ → ℕ → Map ServiceRef → Reader (List ObjectService × Map ServiceRef)
parse_services zero place m buf = ok (([], m), buf)
parse_services (suc count) place m buf = do
  (os, buf₁) ← parse_service buf
  m₁ ← put_service m os place
  ((services, m₂), buf₂) ← parse_services count (place + 1) m₁ buf₁
  ok ((os ∷ services, m₂), buf₂)

-- `*consume_len` is the length of what was read off the buffer.
unfoldable pub cluster_map_parse_object_service_map : Reader ObjectServiceMap
cluster_map_parse_object_service_map buf = do
  (version, buf₁) ← read_u32 buf
  (bset_length, buf₂) ← read_u32 buf₁
  (replica, buf₃) ← read_u16 buf₂
  (count, buf₄) ← read_u32 buf₃
  m ← cluster_map_init_os_map count
  (bsets, buf₅) ← parse_bsets replica bset_length buf₄
  ((services, m'), buf₆) ← parse_services count 0 m buf₅
  ok (
    record {
      version = version;
      status = normal;
      object_service_length = count;
      object_service_list = services;
      os_map = m';
      bset_length = bset_length;
      bset = bsets;
      bset_replica_size = replica;
    },
    buf₆,
  )
