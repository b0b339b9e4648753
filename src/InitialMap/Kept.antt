-- ===== src/InitialMap/Kept.antt =====
-- What the spread of the bsets leaves as it was.
use muti.Common.{
  ℕ, zero, suc, ◌+◌, ◌%◌, ◌^◌, ◌<◌, ◌≡◌, ◌≢◌, refl, sym, ap, subst, ◌∙◌, List, [], ◌∷◌, ◌++◌, map,
  length, length-set, length-map, All, All-append, get_elem?, get_elem?-lt, get_elem?-set_self,
  get_elem?-set_ne, at, at-eq-ok, set, inl, inr, some, ok, assert, >>=-eq-ok, leb, ◌==◌, Bool-cases,
  arith,
}
use native.Mathlib.Nat.{mod-lt}
use muti.ClusterMap.{ObjectService, BSet, ObjectServiceMap}
use muti.InitialMap.{
  cmm_get_os_by_index, avg_bset_num, cmm_place, cmm_place_row, cmm_place_rows, new_bsets,
  cmm_fill_bsets,
}

-- A service with what it has from the configuration; its bset ids are of bsets that there are.
pub record IsService (N : ℕ) (old os : ObjectService) : Type 0 where
  pub id : os.id ≡ old.id
  pub status : os.status ≡ old.status
  pub host : os.host ≡ old.host
  pub port : os.port ≡ old.port
  pub bsets : All (λ l. l < N) os.bset_ids

pub record IsKept (N : ℕ) (old m : ObjectServiceMap) : Type 0 where
  pub version : m.version ≡ old.version
  pub bset_length : m.bset_length ≡ old.bset_length
  pub replica : m.bset_replica_size ≡ old.bset_replica_size
  pub service_length : m.object_service_length ≡ old.object_service_length
  pub index : m.os_map ≡ old.os_map
  pub service_count : length m.object_service_list ≡ length old.object_service_list
  pub bset_count : length m.bset ≡ length old.bset
  pub service :
      (k : ℕ) (os : ObjectService)
      → get_elem? m.object_service_list k ≡ some os
      → (os₀ : ObjectService) × (get_elem? old.object_service_list k ≡ some os₀)
        × IsService N os₀ os

module _ (N : ℕ) (old : ObjectServiceMap) (pos : 0 < N) (bounds : old.bset_length ≡ N) where
  -- The state after a round that put the bset l on the service k.
  placed-IsKept :
      (l k : ℕ) (os : ObjectService) (b : BSet) (m : ObjectServiceMap)
      → l < N
      → get_elem? m.object_service_list k ≡ some os
      → IsKept N old m
      → IsKept N old (record m {
        object_service_list =
            set m.object_service_list k
              (record os { bset_ids = os.bset_ids ++ l ∷ []; bset_length = os.bset_length + 1 });
        bset = set m.bset l b;
      })
  placed-IsKept l k os b m lt e h =
      let os₁ = record os { bset_ids = os.bset_ids ++ l ∷ []; bset_length = os.bset_length + 1 } in
      let (os₀, e₀, same) = h.service k os e in
      let new : IsService N os₀ os₁ = record {
        id = same.id;
        status = same.status;
        host = same.host;
        port = same.port;
        bsets = All-append (λ l. l < N) os.bset_ids (l ∷ []) same.bsets (lt, tt);
      } in
      record {
        version = h.version;
        bset_length = h.bset_length;
        replica = h.replica;
        service_length = h.service_length;
        index = h.index;
        service_count = length-set m.object_service_list k os₁ ∙ h.service_count;
        bset_count = length-set m.bset l b ∙ h.bset_count;
        service = λ k' os' e'. elim (Bool-cases (k == k')) [
          | inl eq ↦
              let here : k ≡ k' = ground arith in
              let self =
                get_elem?-set_self m.object_service_list k os₁
                  (get_elem?-lt m.object_service_list k os e) in
              let it : os₁ ≡ os' = cc (ap (get_elem? (set m.object_service_list k os₁)) here) in
              (
                os₀,
                ap (get_elem? old.object_service_list) (sym here) ∙ e₀,
                subst (IsService N os₀) it new,
              )
          | inr ne ↦
              let other : k ≢ k' = ground arith in
              h.service k' os' (sym (get_elem?-set_ne m.object_service_list k k' os₁ other) ∙ e')
        ];
      }

  abbrev placed : ObjectServiceMap → ℕ → ℕ → ObjectService → BSet → ObjectServiceMap
  placed m k l os b = record m {
    object_service_list =
        set m.object_service_list k
          (record os { bset_ids = os.bset_ids ++ l ∷ []; bset_length = os.bset_length + 1 });
    bset = set m.bset l b;
  }

  cmm_place-IsKept :
      (avg j i : ℕ) (m m' : ObjectServiceMap)
      → cmm_place avg j i m ≡ ok m'
      → IsKept N old m
      → IsKept N old m'
  unfolding cmm_place cmm_get_os_by_index
  cmm_place-IsKept avg j i m m' e h =
      let l = (j + i) % 2 ^ 32 % m.bset_length in
      let k = l % m.object_service_length in
      let (os, run, e₁) = >>=-eq-ok (at m.object_service_list k) _ e in
      let (u, run₁, e₂) = >>=-eq-ok (assert (leb (os.bset_length + 1) avg)) _ e₁ in
      let (b, run₂, e₃) = >>=-eq-ok (at m.bset l) _ e₂ in
      let b₁ = record b { object_service_ids = set b.object_service_ids j os.id } in
      let width = h.bset_length ∙ bounds in
      let lt : l < N =
        subst (λ t. (j + i) % 2 ^ 32 % t < N) (sym width) (mod-lt ((j + i) % 2 ^ 32) pos) in
      let same : placed m k l os b₁ ≡ m' = ground (arith, e₃) in
      subst (IsKept N old) same
        (placed-IsKept l k os b₁ m lt (at-eq-ok m.object_service_list k os run) h)

  cmm_place_row-IsKept :
      (rest avg j i : ℕ) (m m' : ObjectServiceMap)
      → cmm_place_row rest avg j i m ≡ ok m'
      → IsKept N old m
      → IsKept N old m'
  unfolding cmm_place_row
  cmm_place_row-IsKept zero avg j i m m' e h = let same : m ≡ m' = cc in subst (IsKept N old) same h
  cmm_place_row-IsKept (suc rest) avg j i m m' e h =
      let (m₁, run, e₁) = >>=-eq-ok (cmm_place avg j i m) _ e in
      cmm_place_row-IsKept rest avg j (suc i) m₁ m' e₁ (cmm_place-IsKept avg j i m m₁ run h)

  cmm_place_rows-IsKept :
      (rest avg j : ℕ) (m m' : ObjectServiceMap)
      → cmm_place_rows rest avg j m ≡ ok m'
      → IsKept N old m
      → IsKept N old m'
  unfolding cmm_place_rows
  cmm_place_rows-IsKept zero avg j m m' e h = let same : m ≡ m' = cc in subst (IsKept N old) same h
  cmm_place_rows-IsKept (suc rest) avg j m m' e h =
      let (m₁, run, e₁) = >>=-eq-ok (cmm_place_row m.bset_length avg j 0 m) _ e in
      cmm_place_rows-IsKept rest avg (suc j) m₁ m' e₁
        (cmm_place_row-IsKept m.bset_length avg j 0 m m₁ run h)

-- The map with its new bsets, before they are spread.
abbrev pub with_bsets : ℕ → ObjectServiceMap → ObjectServiceMap
with_bsets junk m = record m { bset = new_bsets m.bset_length 0 m.bset_replica_size junk }

cleared-IsService :
    (N k : ℕ) (services : List ObjectService) (os : ObjectService)
    → get_elem?
        (map {A = ObjectService} (λ os. record os { bset_ids = []; bset_length = 0 }) services)
        k
      ≡ some os
    → (os₀ : ObjectService) × (get_elem? services k ≡ some os₀) × IsService N os₀ os
cleared-IsService N k [] os e = absurd cc
cleared-IsService N (suc k) (s ∷ services) os e = cleared-IsService N k services os e
cleared-IsService N zero (s ∷ services) os e =
    let same : record s { bset_ids = []; bset_length = 0 } ≡ os = cc in
    (
      s,
      refl,
      subst (IsService N s) same
          (record { id = refl; status = refl; host = refl; port = refl; bsets = tt }),
    )

pub cmm_fill_bsets-IsKept :
    (junk : ℕ) (m m' : ObjectServiceMap)
    → 0 < m.bset_length
    → cmm_fill_bsets junk m ≡ ok m'
    → IsKept m.bset_length (with_bsets junk m) m'
unfolding cmm_fill_bsets
cmm_fill_bsets-IsKept junk m m' pos e =
    let N = m.bset_length in
    let clear : ObjectService → ObjectService =
      λ os. record os { bset_ids = []; bset_length = 0 } in
    let prepared = record (with_bsets junk m) {
      object_service_list = map clear m.object_service_list;
    } in
    let start : IsKept N (with_bsets junk m) prepared = record {
      version = refl;
      bset_length = refl;
      replica = refl;
      service_length = refl;
      index = refl;
      service_count = length-map clear m.object_service_list;
      bset_count = refl;
      service = λ k os f. cleared-IsService N k m.object_service_list os f;
    } in
    let run : cmm_place_rows m.bset_replica_size (avg_bset_num m) 0 prepared ≡ ok m' =
      ground (arith, e) in
    cmm_place_rows-IsKept N (with_bsets junk m) pos refl m.bset_replica_size (avg_bset_num m) 0
      prepared m' run start
