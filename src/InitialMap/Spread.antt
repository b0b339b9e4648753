-- ===== src/InitialMap/Spread.antt =====
-- What `cmmFillBSets` leaves: the bsets of each service and the services of each bset.
use muti.Common.{
  ℕ, zero, suc, ◌+◌, ◌*◌, ◌/◌, ◌%◌, ◌^◌, ◌<◌, ◌≤◌, ◌≡◌, inl, inr, refl, sym, ap, ap₂, get_elem?-lt,
  false, subst, ◌∙◌, List, [], ◌∷◌, map, length, replicate, length-replicate, get_elem?, ok, some,
  false, ◌==◌, arith,
}
use native.Mathlib.Nat.{mod-eq_of_lt, mul-div_left, mul_comm, mul_assoc}
use muti.ClusterMap.{ObjectService, ObjectServiceMap}
use muti.InitialMap.{avg_bset_num, new_bsets, cmm_fill_bsets}
use muti.InitialMap.Sums.{share, share-even}
use muti.InitialMap.Rounds.{IsFilled}
use muti.InitialMap.Shares.{cmm_place_rows-IsFilled}

-- The id of a service by its place.
abbrev id_at : List ObjectService → ℕ → ℕ
id_at [] k = 0
id_at (os ∷ services) zero = os.id
id_at (os ∷ services) (suc k) = id_at services k

id_at-eq :
    (services : List ObjectService) (k : ℕ) (os : ObjectService)
    → get_elem? services k ≡ some os
    → id_at services k ≡ os.id
id_at-eq [] k os e = absurd cc
id_at-eq (os₀ ∷ services) zero os e =
    let same : os₀ ≡ os = cc in ap (λ (t : ObjectService). t.id) same
id_at-eq (os₀ ∷ services) (suc k) os e = id_at-eq services k os e

abbrev cleared : ObjectService → ObjectService
cleared os = record os { bset_ids = []; bset_length = 0 }

cleared-service :
    (services : List ObjectService) (k : ℕ)
    → k < length services
    → (os : ObjectService) × (get_elem? (map cleared services) k ≡ some os)
      × (os.id ≡ id_at services k)
      × (os.bset_length ≡ 0)
      × (length os.bset_ids ≡ 0)
cleared-service [] k lt = absurd (omega arith)
cleared-service (os ∷ services) zero lt = (cleared os, refl, refl, refl, refl)
cleared-service (os ∷ services) (suc k) lt = cleared-service services k (omega arith)

get_elem?-new_bsets :
    (n id replicas junk l : ℕ)
    → l < n
    → get_elem? (new_bsets n id replicas junk) l
      ≡ some (record { id = id + l; object_service_ids = replicate replicas junk })
unfolding new_bsets
get_elem?-new_bsets zero id replicas junk l lt = absurd (omega arith)
get_elem?-new_bsets (suc n) id replicas junk zero lt =
    ap (λ t. some (record { id = t; object_service_ids = replicate replicas junk })) (omega arith)
get_elem?-new_bsets (suc n) id replicas junk (suc l) lt =
    get_elem?-new_bsets n (suc id) replicas junk l (omega arith)
    ∙ ap (λ t. some (record { id = t; object_service_ids = replicate replicas junk })) (omega arith)

all_replicate :
    (r a : ℕ) (xs : List ℕ)
    → length xs ≡ r
    → ((j : ℕ) → j < r → get_elem? xs j ≡ some a)
    → xs ≡ replicate r a
all_replicate zero a [] e h = refl
all_replicate zero a (x ∷ xs) e h = absurd (omega (arith, e))
all_replicate (suc r) a [] e h = absurd (omega (arith, e))
all_replicate (suc r) a (x ∷ xs) e h =
    let here : x ≡ a = ground (arith, h 0 (omega arith)) in
    let rest = all_replicate r a xs (omega (arith, e)) (λ j lt. h (suc j) (omega (arith, lt))) in
    ap (λ t. t ∷ xs) here ∙ ap (λ t. a ∷ t) rest

module _ (junk : ℕ) (m : ObjectServiceMap)
    (counted : m.object_service_length ≡ length m.object_service_list) where
  abbrev prepared : ObjectServiceMap
  prepared = record m {
    bset = new_bsets m.bset_length 0 m.bset_replica_size junk;
    object_service_list = map cleared m.object_service_list;
  }

  prepared-IsFilled :
      IsFilled m.object_service_length m.bset_length m.bset_replica_size
        (id_at m.object_service_list)
        0
        0
        prepared
  prepared-IsFilled = record {
    services = refl;
    bsets = refl;
    service = λ k lt.
        let (os, f, id, len, ids) =
          cleared-service m.object_service_list k (omega (arith, lt, counted)) in
        (os, f, id, omega (arith, len), omega (arith, len, ids));
    bset = λ l lt. (
      record { id = l; object_service_ids = replicate m.bset_replica_size junk },
      get_elem?-new_bsets m.bset_length 0 m.bset_replica_size junk l lt
          ∙ ap
              (λ t.
                some (record { id = t; object_service_ids = replicate m.bset_replica_size junk }))
              (omega arith),
      refl,
      length-replicate m.bset_replica_size junk,
      λ j' q. elim q [
        | inl less ↦ absurd (omega (arith, less))
        | inr (e, (t, less, f)) ↦ absurd (omega (arith, less))
      ],
    );
  }

  -- The space of a service is its share at least, if the shares are even.
  avg_bset_num-even :
      (q : ℕ)
      → 0 < m.object_service_length
      → m.bset_length ≡ q * m.object_service_length
      → m.bset_length * m.bset_replica_size < 2 ^ 32
      → m.bset_replica_size * q ≤ avg_bset_num m
  unfolding avg_bset_num
  avg_bset_num-even q pos even small =
      let n = m.object_service_length in
      let r = m.bset_replica_size in
      let total : m.bset_length * r % 2 ^ 32 ≡ r * q * n =
        mod-eq_of_lt small ∙ ap (λ t. t * r) even ∙ mul_comm (q * n) r ∙ sym (mul_assoc r q n) in
      let quotient : m.bset_length * r % 2 ^ 32 / n ≡ r * q =
        ap (λ t. t / n) total ∙ mul-div_left (r * q) pos in
      ground (arith, quotient)

  -- On a map with object services, as many as it counts, and with bsets, q times as many, and with
  -- products and sums of these numbers in the range of a uint32_t: the spread of the bsets passes its
  -- asserts. The service at a place keeps its id and has q bset ids for each replica of a bset; and a
  -- bset whose number is that place modulo the number of services has all its replicas on it.
  pub cmm_fill_bsets-even :
      (q k l : ℕ) (os : ObjectService)
      → m.bset_length ≡ q * m.object_service_length
      → m.bset_length * m.bset_replica_size < 2 ^ 32
      → m.bset_replica_size + m.bset_length < 2 ^ 32
      → get_elem? m.object_service_list k ≡ some os
      → l < m.bset_length
      → l % m.object_service_length ≡ k
      → (m' : ObjectServiceMap) × (cmm_fill_bsets junk m ≡ ok m')
        × ((os' : ObjectService) × (get_elem? m'.object_service_list k ≡ some os')
            × (os'.id ≡ os.id)
            × (os'.bset_length ≡ m.bset_replica_size * q)
            × (length os'.bset_ids ≡ m.bset_replica_size * q))
        × (get_elem? m'.bset l
            ≡ some (record { id = l; object_service_ids = replicate m.bset_replica_size os.id }))
  unfolding cmm_fill_bsets
  cmm_fill_bsets-even q k l os even small fits e lt place =
      let n = m.object_service_length in
      let r = m.bset_replica_size in
      let k-lt : k < n = omega (arith, get_elem?-lt m.object_service_list k os e, counted) in
      let shares : (k' : ℕ) → k' < n → share n m.bset_length k' ≡ q =
        λ k' lt'. ap (λ t. share n t k') even ∙ share-even n q k' lt' in
      let space = avg_bset_num-even q (omega (arith, k-lt)) even small in
      let (m', run, h) =
        cmm_place_rows-IsFilled n m.bset_length r (id_at m.object_service_list) r (avg_bset_num m) 0
          prepared (omega (arith, k-lt)) (omega (arith, lt)) (omega arith) fits
          (λ k' lt'. subst (λ t. r * t ≤ avg_bset_num m) (sym (shares k' lt')) space)
          prepared-IsFilled in
      let nonzero : m.object_service_length == 0 ≡ false = ground arith in
      let (os', f, id, len, ids) = h.service k k-lt in
      let (b, g, bid, blen, all) = h.bset l lt in
      let len' : os'.bset_length ≡ r * q = len ∙ omega arith ∙ ap (λ t. r * t) (shares k k-lt) in
      let owner = ap (id_at m.object_service_list) place ∙ id_at-eq m.object_service_list k os e in
      let replicas =
        all_replicate r os.id b.object_service_ids blen
          (λ j less. all j (inl less) ∙ ap some owner) in
      (
        m',
        rw (nonzero, run) refl,
        (os', f, id ∙ id_at-eq m.object_service_list k os e, len', ids ∙ len'),
        g ∙ ap₂ (λ i xs. some (record { id = i; object_service_ids = xs })) bid replicas,
      )
