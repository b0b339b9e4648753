-- ===== src/InitialMap.antt =====
-- libs/cluster/ClusterMapMon.c: how the monitor spreads the bsets of a new cluster over its object
-- services. The array of a bset's replicas comes from malloc; `junk` is what is in it before a write.
pub mod Sums
pub mod Rounds
pub mod Shares
pub mod Spread
pub mod Config
pub mod Kept
pub mod Described
pub mod Ids
pub mod Filled
pub mod Start
use muti.Common.{
  ℕ, zero, suc, ◌+◌, ◌*◌, ◌/◌, ◌%◌, ◌^◌, List, [], ◌∷◌, ◌++◌, map, length, replicate, set, at,
  Outcome, ok, aborted, assert, ◌>>=◌, ◌>>◌, leb, ◌==◌, if◌then◌else◌,
}
use muti.ClusterMap.{ObjectService, BSet, ObjectServiceMap}

-- `cmmGetOSbyIndex`, whose assert fails past the end of the list
unfoldable pub cmm_get_os_by_index : ObjectServiceMap → ℕ → Outcome ObjectService
cmm_get_os_by_index os_map k = at os_map.object_service_list k

-- The space that each service gets for its bset ids, as many as its share if that is even.
unfoldable pub avg_bset_num : ObjectServiceMap → ℕ
avg_bset_num os_map =
    let total_bset_num = os_map.bset_length * os_map.bset_replica_size % 2 ^ 32 in
    let avg = total_bset_num / os_map.object_service_length in
    if avg * os_map.object_service_length == total_bset_num then avg else avg + 1

-- The body of the inner loop: the replica j of a bset goes to a service. A service without space for
-- it fails the assert.
unfoldable pub cmm_place : ℕ → ℕ → ℕ → ObjectServiceMap → Outcome ObjectServiceMap
unfolding cmm_get_os_by_index
cmm_place avg j i os_map = do
  let l = (j + i) % 2 ^ 32 % os_map.bset_length
  let k = l % os_map.object_service_length
  os ← cmm_get_os_by_index os_map k
  let os₁ = record os { bset_ids = os.bset_ids ++ l ∷ []; bset_length = os.bset_length + 1 }
  _ ← assert (leb os₁.bset_length avg)
  bset ← at os_map.bset l
  let bset₁ = record bset { object_service_ids = set bset.object_service_ids j os.id }
  ok (record os_map {
    object_service_list = set os_map.object_service_list k os₁;
    bset = set os_map.bset l bset₁;
  })

-- The inner loop: `rest` rounds are left, and i is the next.
unfoldable pub cmm_place_row : ℕ → ℕ → ℕ → ℕ → ObjectServiceMap → Outcome ObjectServiceMap
unfolding cmm_place
cmm_place_row zero avg j i os_map = ok os_map
cmm_place_row (suc rest) avg j i os_map =
    cmm_place avg j i os_map >>= cmm_place_row rest avg j (suc i)

-- The outer loop
unfoldable pub cmm_place_rows : ℕ → ℕ → ℕ → ObjectServiceMap → Outcome ObjectServiceMap
unfolding cmm_place_row
cmm_place_rows zero avg j os_map = ok os_map
cmm_place_rows (suc rest) avg j os_map =
    cmm_place_row os_map.bset_length avg j 0 os_map >>= cmm_place_rows rest avg (suc j)

-- The bsets from `id` on, with space for their replicas.
unfoldable pub new_bsets : ℕ → ℕ → ℕ → ℕ → List BSet
new_bsets zero id replicas junk = []
new_bsets (suc n) id replicas junk =
    record { id = id; object_service_ids = replicate replicas junk }
    ∷ new_bsets n (suc id) replicas junk

-- `cmmFillBSets`; without services it divides by zero.
unfoldable pub cmm_fill_bsets : ℕ → ObjectServiceMap → Outcome ObjectServiceMap
unfolding avg_bset_num cmm_place_rows new_bsets
cmm_fill_bsets junk os_map =
    let prepared = record os_map {
      bset = new_bsets os_map.bset_length 0 os_map.bset_replica_size junk;
      object_service_list =
          map {A = ObjectService} (λ os. record os { bset_ids = []; bset_length = 0 })
            os_map.object_service_list;
    } in
    let filled = cmm_place_rows os_map.bset_replica_size (avg_bset_num os_map) 0 prepared in
    if os_map.object_service_length == 0 then aborted else filled
