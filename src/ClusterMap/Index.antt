-- ===== src/ClusterMap/Index.antt =====
-- `os_map` as an index of the list of object services, and the size of its slot array.
use muti.Common.{
  ℕ, zero, suc, ◌+◌, ◌-◌, ◌%◌, ◌^◌, ◌≤◌, ◌<◌, ◌≡◌, inl, inr, refl, sym, ap, ◌∙◌, subst, List, [],
  ◌∷◌, ◌++◌, Option, none, some, ok, aborted, replicate, >>=-eq-ok, length, arith, ltb, ltb→lt,
  lt→ltb, ◌==◌, if◌then◌else◌, Bool-cases,
}
use muti.HashMap.{Map, put, mask, init_map_hash_linked}
use muti.HashMap.Chains.{IsLawful}
use muti.HashMap.Laws.{IsValid, view, get-view, put-Replaces}
use muti.HashMap.Whole.{init_map_hash_linked-IsValid}
use muti.ClusterMap.Codec.{put_service}
use native.Mathlib.Numerals.{add-one}
use native.Mathlib.Nat.{one-le-pow, pow-le-pow_right}
use muti.Common.Bits.{bit_and-power}
use muti.ClusterMap.{
  ObjectService, ServiceRef, ObjectServiceMap, os_int32_key_compare, os_int32_hash, slot_size_loop,
  slot_size_for, os_param, param_of, cluster_map_init_os_map, cluster_map_get_object_service,
}

-- The comparison and the hash of `os_map` agree with equality of uint32_t keys.
pub os_law : (ssize : ℕ) → IsLawful (os_param ssize)
unfolding os_int32_key_compare os_int32_hash
os_law ssize = record {
  code = λ k. k % 2 ^ 32;
  compare_zero = λ a b h. omega arith;
  compare_same = λ a b h. omega arith;
  hash_same = λ a b h. h;
}

-- The first service with an id, and its place.
abbrev pub locate : ℕ → ℕ → List ObjectService → Option ServiceRef
locate q place [] = none
locate q place (os ∷ rest) =
    if q % 2 ^ 32 == os.id % 2 ^ 32
    then some (record { id = os.id; place = place })
    else locate q (place + 1) rest

-- The map finds each service of the list at its place, and nothing else.
pub record Indexes (m : Map ServiceRef) (services : List ObjectService) : Type 0 where
  pub valid : IsValid (param_of m) (os_law (length m.slots)) m
  pub finds : (q : ℕ) → view (param_of m) (os_law (length m.slots)) m q ≡ locate q 0 services

-- At the slot size that the map was made with.
Indexes-resized :
    (ssize : ℕ) (m : Map ServiceRef) (services : List ObjectService)
    → IsValid (os_param ssize) (os_law ssize) m
    → ((q : ℕ) → view (os_param ssize) (os_law ssize) m q ≡ locate q 0 services)
    → Indexes m services
Indexes-resized ssize m services valid finds =
    let made = sym valid.width in
    record {
      valid = subst (λ s. IsValid (os_param s) (os_law s) m) made valid;
      finds =
          λ q. subst (λ s. view (os_param s) (os_law s) m q ≡ locate q 0 services) made (finds q);
    }

slot_size_loop_ok :
    (fuel n j : ℕ)
    → j + fuel ≡ 32
    → j < 31
    → n ≤ 2 ^ 30
    → (i : ℕ) × (slot_size_loop fuel n (2 ^ j) (suc j) ≡ ok (2 ^ i)) × (n ≤ 2 ^ i) × (i < 31)
unfolding slot_size_loop
slot_size_loop_ok zero n j e lt h = absurd (omega arith)
slot_size_loop_ok (suc fuel) n j e lt h = elim (Bool-cases (ltb (2 ^ j) n)) [
  | inr done ↦ (j, rw done, ground arith, lt)
  | inl more ↦ elim (Bool-cases (ltb (suc j) 31)) [
    | inl room ↦
        let (i, run, big, small) =
          slot_size_loop_ok fuel n (suc j) (omega arith) (ground arith) h in
        (i, rw (more, room, add-one (suc j)) run, big, small)
    | inr full ↦
        let last : j ≡ 30 = ground arith in
        let power : 2 ^ j ≡ 2 ^ 30 = ap (λ (t : ℕ). 2 ^ t) last in
        absurd (omega (arith, ltb→lt (2 ^ j) n more))
  ]
]

-- The loop that picks the slot size ends, at a power of two that is large enough.
pub slot_size_for_ok :
    (n : ℕ) → 0 < n → n ≤ 2 ^ 30 → (i : ℕ) × (slot_size_for n ≡ ok (2 ^ i)) × (n ≤ 2 ^ i) × (i < 31)
unfolding slot_size_for
slot_size_for_ok n pos h =
    let (i, run, big, small) = slot_size_loop_ok 31 n 1 refl (omega arith) h in
    (i, rw (lt→ltb 0 n pos) run, big, small)

power-bound : (i : ℕ) → i < 31 → (0 < 2 ^ i) × (2 ^ i < 2 ^ 31)
power-bound i h =
    let top : 2 ^ i ≤ 2 ^ 30 = pow-le-pow_right (omega arith) {i = i} {j = 30} (omega arith) in
    (one-le-pow i 2 (omega arith), omega arith)

mask-power : (i : ℕ) → i < 31 → mask (2 ^ i) ≡ 2 ^ i - 1
mask-power i h = omega (arith, power-bound i h)

-- The index of an empty list.
pub init_os_map-Indexes :
    (n : ℕ)
    → n ≤ 2 ^ 30
    → (m : Map ServiceRef) × (cluster_map_init_os_map n ≡ ok m) × (0 < n → Indexes m [])
unfolding cluster_map_init_os_map
init_os_map-Indexes zero h = (record { slots = []; size = 0 }, refl, λ pos. absurd (omega arith))
init_os_map-Indexes (suc n) h =
    let (i, run, big, small) = slot_size_for_ok (suc n) (omega arith) h in
    let bounds = power-bound i small in
    let fresh : Map ServiceRef = record { slots = replicate (2 ^ i) []; size = 0 } in
    let made : init_map_hash_linked (os_param (2 ^ i)) ≡ ok fresh =
      rw (mask-power i small, bit_and-power i (omega arith)) refl in
    let (valid, reads, size) =
      init_map_hash_linked-IsValid (os_param (2 ^ i)) (os_law (2 ^ i)) fresh bounds.0 (omega arith)
        made in
    (fresh, rw run made, λ pos. Indexes-resized (2 ^ i) fresh [] valid reads)

locate-append :
    (q place : ℕ) (services : List ObjectService) (os : ObjectService)
    → locate os.id place services ≡ none
    → locate q place (services ++ os ∷ []) ≡ (
        if q % 2 ^ 32 == os.id % 2 ^ 32
        then some (record { id = os.id; place = place + length services })
        else locate q place services)
locate-append q place [] os h = ground arith
locate-append q place (s ∷ services) os h = ground (arith, locate-append q (place + 1) services os)

pub put_service-Indexes :
    (m : Map ServiceRef) (services : List ObjectService) (os : ObjectService)
    → Indexes m services
    → locate os.id 0 services ≡ none
    → (m' : Map ServiceRef) × (put_service m os (length services) ≡ ok m')
      × Indexes m' (services ++ os ∷ [])
unfolding put_service os_law
put_service-Indexes m services os index new =
    let ref : ServiceRef = record { id = os.id; place = length services } in
    let (m', run, r) =
      put-Replaces (param_of m) (os_law (length m.slots)) index.valid os.id ref refl in
    let put_new : put (param_of m) m os.id ref ≡ ok (none, m') =
      ground (arith, run, index.finds os.id, new) in
    (
      m',
      rw put_new refl,
      Indexes-resized (length m.slots) m' (services ++ os ∷ []) r.valid
          (λ q. ground (arith, r.reads q, index.finds q, locate-append q 0 services os new)),
    )

-- Looking up an id in a map with an index finds what a search of the list finds.
pub cluster_map_get_object_service-locate :
    (os_map : ObjectServiceMap)
    → Indexes os_map.os_map os_map.object_service_list
    → (os_id : ℕ)
    → cluster_map_get_object_service os_map os_id ≡ ok (locate os_id 0 os_map.object_service_list)
unfolding cluster_map_get_object_service
cluster_map_get_object_service-locate os_map index os_id =
    get-view (param_of os_map.os_map) (os_law (length os_map.os_map.slots)) index.valid os_id
    ∙ ap ok (index.finds os_id)

-- A second service with an id that the list has stops the process.
pub put_service_duplicate :
    (m : Map ServiceRef) (services : List ObjectService) (os : ObjectService) (r : ServiceRef)
    → Indexes m services
    → locate os.id 0 services ≡ some r
    → put_service m os (length services) ≡ aborted
unfolding put_service os_law
put_service_duplicate m services os r index there =
    let ref : ServiceRef = record { id = os.id; place = length services } in
    let (m', run, _) =
      put-Replaces (param_of m) (os_law (length m.slots)) index.valid os.id ref refl in
    let put_old : put (param_of m) m os.id ref ≡ ok (some r, m') =
      ground (arith, run, index.finds os.id, there) in
    rw put_old refl

slot_size_loop-le :
    (fuel n j s : ℕ) → j < 31 → slot_size_loop fuel n (2 ^ j) (suc j) ≡ ok s → n ≤ 2 ^ 30
unfolding slot_size_loop
slot_size_loop-le zero n j s lt e = cc
slot_size_loop-le (suc fuel) n j s lt e = elim (Bool-cases (ltb (2 ^ j) n)) [
  | inr done ↦
      let top : 2 ^ j ≤ 2 ^ 30 = pow-le-pow_right (omega arith) {i = j} {j = 30} (omega arith) in
      ground arith
  | inl more ↦ elim (Bool-cases (ltb (suc j) 31)) [
    | inl room ↦
        let step : slot_size_loop fuel n (2 ^ suc j) (suc (suc j)) ≡ ok s =
          rw (more, room, add-one (suc j)) at e in
        slot_size_loop-le fuel n (suc j) s (ground arith) step
    | inr full ↦ let stop : aborted ≡ ok s = rw (more, full) at e in cc
  ]
]

slot_size_for-le : (n s : ℕ) → slot_size_for n ≡ ok s → n ≤ 2 ^ 30
unfolding slot_size_for
slot_size_for-le zero s e = omega arith
slot_size_for-le (suc n) s e =
    let step : slot_size_loop 31 (suc n) (2 ^ 1) 2 ≡ ok s =
      rw (lt→ltb 0 (suc n) (omega arith)) at e in
    slot_size_loop-le 31 (suc n) 1 s (omega arith) step

-- A map is made only for at most 2 ^ 30 services.
pub init_os_map-le : (n : ℕ) (m : Map ServiceRef) → cluster_map_init_os_map n ≡ ok m → n ≤ 2 ^ 30
unfolding cluster_map_init_os_map
init_os_map-le n m e = let (s, run, _) = >>=-eq-ok (slot_size_for n) _ e in slot_size_for-le n s run
