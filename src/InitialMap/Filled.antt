-- ===== src/InitialMap/Filled.antt =====
-- The map after the spread of its bsets is well-formed.
use muti.Common.{
  ℕ, zero, suc, ◌+◌, ◌*◌, ◌%◌, ◌^◌, ◌<◌, ◌≤◌, ◌≡◌, refl, sym, ap, subst, ◌∙◌, [], length,
  length-replicate, replicate, All, All-imp, ap₂, get_elem?, get_elem?-lt, get_elem?_total, some,
  ok, arith,
}
use native.Mathlib.Nat.{mod-lt, mod-eq_of_lt, mul-add, mul_assoc, mul_comm, mul-le-mul_right}
use muti.Wire.{IsByte, sign_extend8}
use muti.ClusterMap.{ObjectService, BSet, ObjectServiceMap, network_host_len}
use muti.ClusterMap.Codec.Encoding.{
  IsU32, IsBSet, IsObjectService, IsUnique, IsWellFormed, FitsLength,
}
use muti.InitialMap.{new_bsets, cmm_fill_bsets}
use muti.InitialMap.Spread.{cmm_fill_bsets-even}
use muti.InitialMap.Ids.{All-get_elem?, get_elem?-All, ids_of, ids_of-get_elem?, IsUnique-ids_of}
use muti.InitialMap.Kept.{IsKept, with_bsets, cmm_fill_bsets-IsKept}

All-replicate {κ} : (P : ℕ → Type κ) (n a : ℕ) → P a → All P (replicate n a)
All-replicate P zero a h = tt
All-replicate P (suc n) a h = (h, All-replicate P n a h)

length-new_bsets : (n id replicas junk : ℕ) → length (new_bsets n id replicas junk) ≡ n
unfolding new_bsets
length-new_bsets zero id replicas junk = refl
length-new_bsets (suc n) id replicas junk = ap suc (length-new_bsets n (suc id) replicas junk)

-- A map before its bsets are spread, with q bsets for each service, whose fields are in their ranges.
pub record IsSpreadable (q : ℕ) (m : ObjectServiceMap) : Type 0 where
  pub counted : m.object_service_length ≡ length m.object_service_list
  pub some_service : 0 < m.object_service_length
  pub some_share : 0 < q
  pub even : m.bset_length ≡ q * m.object_service_length
  pub fits :
      m.bset_length * (4 + m.bset_replica_size * 4) + m.object_service_length * 141 + 14 < 2 ^ 32
  pub version : IsU32 m.version
  pub replica : m.bset_replica_size < 2 ^ 16
  pub service_length : m.object_service_length ≤ 2 ^ 30
  pub services : All IsObjectService m.object_service_list
  pub unique : IsUnique [] m.object_service_list

module _ (junk q : ℕ) (m : ObjectServiceMap) (v : IsSpreadable q m) where
  abbrev n : ℕ
  n = m.object_service_length

  abbrev r : ℕ
  r = m.bset_replica_size

  bounds :
      (n ≤ m.bset_length)
      × (m.bset_length * r < 2 ^ 30)
      × (r + m.bset_length < 2 ^ 32)
      × (r * q ≤ m.bset_length * r)
  bounds =
      let N = m.bset_length in
      let services = mul-le-mul_right n v.some_share in
      let shares = mul-le-mul_right q v.some_service in
      let q-le : q ≤ N = omega (arith, shares, mul_comm n q, v.even) in
      let parts = mul-add N 4 (r * 4) in
      (
        omega (arith, services, v.even),
        omega (arith, v.fits, parts, mul_assoc N r 4),
        omega (arith, v.fits, parts, v.replica),
        omega (arith, mul-le-mul_right r q-le, mul_comm q r),
      )

  -- The bset l, and the service that it is on.
  abbrev IsSpread : ObjectServiceMap → ℕ → Type 0
  IsSpread m' l =
      (os : ObjectService) × (os' : ObjectService) × (get_elem? m.object_service_list (l % n)
        ≡ some os)
      × (get_elem? m'.object_service_list (l % n) ≡ some os')
      × ((os'.bset_length ≡ r * q) × (length os'.bset_ids ≡ r * q))
      × (get_elem? m'.bset l ≡ some (record { id = l; object_service_ids = replicate r os.id }))

  IsSpread-at :
      (l : ℕ)
      → l < m.bset_length
      → (m' : ObjectServiceMap) × (cmm_fill_bsets junk m ≡ ok m') × IsSpread m' l
  IsSpread-at l lt =
      let (le, small, fits, part) = bounds in
      let (os, e) =
        get_elem?_total m.object_service_list (l % n)
          (omega (arith, mod-lt l v.some_service, v.counted)) in
      let (m', run, (os', f, id, len, ids), b) =
        cmm_fill_bsets-even junk m v.counted q (l % n) l os v.even (omega arith) fits e lt refl in
      (m', run, (os, os', e, f, (len, ids), b))

  -- The spread succeeds; each service is as it was, with q bsets for each replica, and the bset l is on
  -- the service at the place l modulo the number of services.
  pub spread :
      (m' : ObjectServiceMap) × (cmm_fill_bsets junk m ≡ ok m')
      × IsKept m.bset_length (with_bsets junk m) m'
      × ((l : ℕ) → l < m.bset_length → IsSpread m' l)
  spread =
      let (le, small, fits, part) = bounds in
      let first : 0 < m.bset_length = omega (arith, le, v.some_service) in
      let (m', run, _) = IsSpread-at 0 first in
      (
        m',
        run,
        cmm_fill_bsets-IsKept junk m m' first run,
        λ l lt.
            let (m₁, run₁, s) = IsSpread-at l lt in
            let same : m₁ ≡ m' = cc in subst (λ t. IsSpread t l) same s,
      )

  module _ (m' : ObjectServiceMap) (h : IsKept m.bset_length (with_bsets junk m) m')
      (all : (l : ℕ) → l < m.bset_length → IsSpread m' l) where
    bset_count : length m'.bset ≡ m.bset_length
    bset_count = h.bset_count ∙ length-new_bsets m.bset_length 0 r junk

    bset_good : (l : ℕ) (b : BSet) → get_elem? m'.bset l ≡ some b → IsBSet m'.bset_replica_size b
    bset_good l b e =
        let (le, small, fits, part) = bounds in
        let lt : l < m.bset_length = omega (arith, get_elem?-lt m'.bset l b e, bset_count) in
        let (os, os', f, f', (len, ids), g) = all l lt in
        let same : record { id = l; object_service_ids = replicate r os.id } ≡ b = cc in
        let id-lt =
          (get_elem?-All IsObjectService m.object_service_list (l % n) os v.services f).id in
        subst (IsBSet m'.bset_replica_size) same (record {
          id = omega (arith, lt, fits);
          replicas = length-replicate r os.id ∙ sym h.replica;
          services = All-replicate IsU32 r os.id id-lt;
        })

    service_good :
        (k : ℕ) (os : ObjectService)
        → get_elem? m'.object_service_list k ≡ some os
        → IsObjectService os × (os.bset_length * 4 < 2 ^ 32)
    service_good k os e =
        let (le, small, fits, part) = bounds in
        let lt : k < n =
          omega (arith, get_elem?-lt m'.object_service_list k os e, h.service_count, v.counted) in
        let (os₀, f, s) = h.service k os e in
        let (os₁, os', f₁, f', (len, ids), g) = all k (omega (arith, lt, le)) in
        let here : get_elem? m'.object_service_list k ≡ some os' =
          ap (get_elem? m'.object_service_list) (sym (mod-eq_of_lt lt)) ∙ f' in
        let same : os' ≡ os = cc in
        let len' : os.bset_length ≡ r * q =
          ap (λ (t : ObjectService). t.bset_length) (sym same) ∙ len in
        let ids' : length os.bset_ids ≡ r * q =
          ap (λ (t : ObjectService). length t.bset_ids) (sym same) ∙ ids in
        let good = get_elem?-All IsObjectService m.object_service_list k os₀ v.services f in
        (
          record {
            id = omega (arith, s.id, good.id);
            host =
                subst (λ t. (length t ≡ network_host_len + 1) × All IsByte t) (sym s.host)
                  good.host;
            port = omega (arith, s.port, good.port);
            status = subst (λ t. sign_extend8 (t % 256) ≡ t) (sym s.status) good.status;
            bset_length = omega (arith, len', part, small);
            bset_count = ids' ∙ sym len';
            bsets =
                All-imp (λ l. l < m.bset_length) IsU32 os.bset_ids (λ l lt. omega (arith, lt, fits))
                  s.bsets;
          },
          omega (arith, len', part, small),
        )

    same_ids : ids_of m'.object_service_list ≡ ids_of m.object_service_list
    same_ids =
        ids_of-get_elem? m'.object_service_list m.object_service_list h.service_count
          (λ k os e. let (os₀, f, s) = h.service k os e in (os₀, f, s.id))

    filled-IsWellFormed : IsWellFormed m'
    filled-IsWellFormed =
        let (le, small, fits, part) = bounds in
        record {
          version = omega (arith, v.version, h.version);
          replica = omega (arith, v.replica, h.replica);
          bset_length = omega (arith, h.bset_length, fits);
          bset_count = bset_count ∙ sym h.bset_length;
          bsets = All-get_elem? (IsBSet m'.bset_replica_size) m'.bset bset_good;
          service_length = omega (arith, h.service_length, v.service_length);
          service_count = omega (arith, h.service_count, h.service_length, v.counted);
          services =
              All-get_elem? IsObjectService m'.object_service_list
                (λ k os e. (service_good k os e).0);
          unique =
              IsUnique-ids_of [] [] m'.object_service_list m.object_service_list refl same_ids
                v.unique;
        }

    filled-FitsLength : FitsLength m'
    filled-FitsLength = record {
      fixed =
          subst (λ t. IsU32 (14 + t + m'.object_service_length * 141))
            (sym (ap₂ (λ (a b : ℕ). a * (4 + b * 4)) h.bset_length h.replica))
            (omega (arith, v.fits, h.service_length));
      lists =
          All-get_elem? (λ os. os.bset_length * 4 < 2 ^ 32) m'.object_service_list
            (λ k os e. (service_good k os e).1);
    }

  -- The spread of such a map leaves a well-formed map, with the same services under the same ids.
  pub cmm_fill_bsets-IsWellFormed :
      (m' : ObjectServiceMap) × (cmm_fill_bsets junk m ≡ ok m')
      × IsWellFormed m'
      × FitsLength m'
      × IsKept m.bset_length (with_bsets junk m) m'
  cmm_fill_bsets-IsWellFormed =
      let (m', run, kept, all) = spread in
      (m', run, filled-IsWellFormed m' kept all, filled-FitsLength m' kept all, kept)
