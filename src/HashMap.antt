-- ===== src/HashMap.antt =====
-- corecode/util/MapHashLinked.c: the hash map with one linked list for each slot.
-- The intrusive list of h/util/LinkedList.h is a list of the values of its items, in order; the
-- slot array is a list of such lists. A pointer to a value is the value with its key.
pub mod Chains
pub mod Laws
pub mod Whole
use muti.Common.{
  ℕ, zero, suc, ◌+◌, ◌-◌, ◌%◌, ◌^◌, bit_and, Bool, true, false, Option, none, some, List, [], ◌∷◌,
  ◌++◌, map, flatten, Outcome, ok, aborted, ◌>>=◌, at, length, set, replicate, ◌==◌, if◌then◌else◌,
}

-- `MapHashLinkedParam`: `key_of` is the key at `keyOffsetInValue`; `compareMethod` gives 0 for
-- equal keys.
pub record MapHashLinkedParam {ℓ} (K V : Type ℓ) : Type ℓ where
  pub compare_method : K → K → ℕ
  pub hash_method : K → ℕ
  pub key_of : V → K
  pub slot_size : ℕ

-- `MapHashLinkedPrivate`
pub record Map {ℓ} (V : Type ℓ) : Type ℓ where
  pub slots : List (List V)
  pub size : ℕ

-- `slot_size - 1` on a size_t
abbrev pub mask : ℕ → ℕ
mask slot_size = (slot_size + 2 ^ 64 - 1) % 2 ^ 64

unfoldable pub is_empty {ℓ} : {V : Type ℓ} → Map V → Bool
is_empty m = m.size == 0

-- the values that `clear` stores in the caller's array, in order, and the map it leaves
unfoldable pub clear {ℓ} : {V : Type ℓ} → Map V → List V × Map V
clear m = (flatten m.slots, record { slots = map (λ _. []) m.slots; size = 0 })

module _ {ℓ} {K V : Type ℓ} (p : MapHashLinkedParam K V) where
  -- `compareMethod(key1, key) == 0` for the key of `v`
  abbrev pub matches : V → K → Bool
  matches v k = p.compare_method (p.key_of v) k == 0

  pub slot_of : K → ℕ
  slot_of k = bit_and (p.hash_method k) (mask p.slot_size)

  -- the loop over a slot in `get`, `put` and `_remove`
  unfoldable pub find : K → List V → Option V
  find k [] = none
  find k (v ∷ s) = if matches v k then some v else find k s

  -- `item->value = value`, at the item that the loop stopped at
  unfoldable pub assign : K → V → List V → List V
  assign k new [] = []
  assign k new (v ∷ s) = if matches v k then new ∷ s else v ∷ assign k new s

  -- `listDel` of that item
  unfoldable pub unlink : K → List V → List V
  unlink k [] = []
  unlink k (v ∷ s) = if matches v k then s else v ∷ unlink k s

  unfoldable pub get : Map V → K → Outcome (Option V)
  unfolding slot_of find
  get m k = do slot ← at m.slots (slot_of k); ok (find k slot)

  unfoldable pub put : Map V → K → V → Outcome (Option V × Map V)
  unfolding slot_of find assign
  put m k value =
      let store = do
        slot ← at m.slots (slot_of k)
        elim (find k slot) [
          | some old ↦
              ok (some old, record m { slots = set m.slots (slot_of k) (assign k value slot) })
          | none ↦ ok (
            none,
            record m { slots = set m.slots (slot_of k) (slot ++ value ∷ []); size = m.size + 1 },
          )
        ]
      in if matches value k then store else aborted

  unfoldable pub remove : Map V → K → Outcome (Option V × Map V)
  unfolding slot_of find unlink
  remove m k = do
    slot ← at m.slots (slot_of k)
    elim (find k slot) [
      | some old ↦ ok (
        some old,
        record m { slots = set m.slots (slot_of k) (unlink k slot); size = m.size - 1 },
      )
      | none ↦ ok (none, m)
    ]

  -- `exit` unless the slot size passes the test for a power of two, which 0 passes too
  unfoldable pub init_map_hash_linked : Outcome (Map V)
  init_map_hash_linked =
      if bit_and p.slot_size (mask p.slot_size) == 0
      then ok (record { slots = replicate p.slot_size []; size = 0 })
      else aborted
