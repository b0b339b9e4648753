-- ===== src/InitialMap/Rounds.antt =====
-- What the loops of `cmmFillBSets` have done when they come to a round.
use muti.Common.{
  ℕ, suc, ◌+◌, ◌*◌, ◌%◌, ◌^◌, ◌<◌, ◌≡◌, ◌⊎◌, inl, inr, refl, sym, ap, subst, ◌∙◌, [], ◌∷◌, ◌++◌,
  length, length-append, get_elem?, set, length-set, get_elem?-lt, get_elem?-set_self,
  get_elem?-set_ne, at-get_elem?, ok, some, true, ◌≢◌, leb, ◌==◌, Bool-cases, arith,
}
use native.Mathlib.Nat.{mod-lt, mod-eq_of_lt}
use muti.ClusterMap.{ObjectService, BSet, ObjectServiceMap}
use muti.InitialMap.{cmm_place}
use muti.InitialMap.Sums.{one_if, sum_below, share}

-- n services with these ids, N bsets of r replicas each.
module _ (n N r : ℕ) (owner : ℕ → ℕ) where
  -- The replica j' of the bset l' is placed before round i of row j.
  abbrev pub IsPlaced : (j i l' j' : ℕ) → Type 0
  IsPlaced j i l' j' = (j' < j) ⊎ ((j' ≡ j) × ((t : ℕ) × (t < i) × ((j + t) % N ≡ l')))

  -- How many bsets a service has then.
  abbrev pub load : (j i k : ℕ) → ℕ
  load j i k = j * share n N k + sum_below i (λ t. one_if ((j + t) % N % n == k))

  pub record IsFilled (j i : ℕ) (m : ObjectServiceMap) : Type 0 where
    pub services : m.object_service_length ≡ n
    pub bsets : m.bset_length ≡ N
    pub service :
        (k : ℕ)
        → k < n
        → (os : ObjectService) × (get_elem? m.object_service_list k ≡ some os)
          × (os.id ≡ owner k)
          × (os.bset_length ≡ load j i k)
          × (length os.bset_ids ≡ os.bset_length)
    pub bset :
        (l : ℕ)
        → l < N
        → (b : BSet) × (get_elem? m.bset l ≡ some b)
          × (b.id ≡ l)
          × (length b.object_service_ids ≡ r)
          × ((j' : ℕ)
              → IsPlaced j i l j'
              → get_elem? b.object_service_ids j' ≡ some (owner (l % n)))

  -- One round: the bset l gets its replica j on the service at l % n.
  module _ (j i : ℕ) (m : ObjectServiceMap) (pos : 0 < n) (lt : i < N) (row : j < r)
      (h : IsFilled j i m) where
    abbrev l : ℕ
    l = (j + i) % N

    abbrev k : ℕ
    k = (j + i) % N % n

    l-lt : l < N
    l-lt = mod-lt (j + i) (omega (arith, lt))

    k-lt : k < n
    k-lt = mod-lt l pos

    abbrev given : ObjectService → ObjectService
    given os = record os { bset_ids = os.bset_ids ++ l ∷ []; bset_length = os.bset_length + 1 }

    abbrev written : ObjectService → BSet → BSet
    written os b = record b { object_service_ids = set b.object_service_ids j os.id }

    abbrev placed : ObjectService → BSet → ObjectServiceMap
    placed os b = record m {
      object_service_list = set m.object_service_list k (given os);
      bset = set m.bset l (written os b);
    }

    cmm_place-placed :
        (avg : ℕ) (os : ObjectService) (b : BSet)
        → j + i < 2 ^ 32
        → get_elem? m.object_service_list k ≡ some os
        → get_elem? m.bset l ≡ some b
        → os.bset_length < avg
        → cmm_place avg j i m ≡ ok (placed os b)
    unfolding cmm_place
    cmm_place-placed avg os b small f g space =
        let l-eq : (j + i) % 2 ^ 32 % m.bset_length ≡ l =
          ap (λ t. t % m.bset_length) (mod-eq_of_lt small) ∙ ap (λ t. (j + i) % t) h.bsets in
        let k-eq : (j + i) % 2 ^ 32 % m.bset_length % m.object_service_length ≡ k =
          ap (λ t. t % m.object_service_length) l-eq ∙ ap (λ t. l % t) h.services in
        let roomy : leb (os.bset_length + 1) avg ≡ true = ground arith in
        let f' = at-get_elem? m.object_service_list k os f in
        let g' = at-get_elem? m.bset l b g in rw (k-eq, l-eq, f', roomy, g') refl

    still_placed : (l' j' : ℕ) → l' ≢ l → IsPlaced j (suc i) l' j' → IsPlaced j i l' j'
    still_placed l' j' ne (inl before) = inl before
    still_placed l' j' ne (inr (e, (t, less, f))) = elim (Bool-cases (t == i)) [
      | inl same ↦ let g : t ≡ i = ground arith in absurd (ne (sym f ∙ ap (λ u. (j + u) % N) g))
      | inr other ↦ inr (e, (t, ground arith, f))
    ]

    earlier_placed : (l' j' : ℕ) → j' ≢ j → IsPlaced j (suc i) l' j' → IsPlaced j i l' j'
    earlier_placed l' j' ne (inl before) = inl before
    earlier_placed l' j' ne (inr (e, rest)) = absurd (ne e)

    placed-service :
        (os : ObjectService) (b : BSet)
        → get_elem? m.object_service_list k ≡ some os
        → (k' : ℕ) → k' < n
        → (os' : ObjectService) × (get_elem? (placed os b).object_service_list k' ≡ some os')
          × (os'.id ≡ owner k')
          × (os'.bset_length ≡ load j (suc i) k')
          × (length os'.bset_ids ≡ os'.bset_length)
    placed-service os b f k' lt' = elim (Bool-cases (k == k')) [
      | inl same ↦
          let e : k ≡ k' = ground arith in
          let (os₀, f₀, id₀, len₀, ids₀) = h.service k k-lt in
          let e₀ : os₀ ≡ os = cc in
          let lens = ap (λ (t : ObjectService). t.bset_length) e₀ in
          let ids = ap (λ (t : ObjectService). length t.bset_ids) e₀ in
          let one : (one_if (k == k')) ≡ 1 = rw same refl in
          let in_range = get_elem?-lt m.object_service_list k os f in
          let self = get_elem?-set_self m.object_service_list k (given os) in_range in
          (
            given os,
            ap (get_elem? (set m.object_service_list k (given os))) (sym e) ∙ self,
            ap (λ (t : ObjectService). t.id) (sym e₀) ∙ id₀ ∙ ap owner e,
            omega (arith, lens, len₀, ap (load j i) e, one),
            omega (arith, length-append os.bset_ids (l ∷ []), ids₀, ids, lens),
          )
      | inr other ↦
          let ne : k ≢ k' = ground arith in
          let (os', f', id', len', ids') = h.service k' lt' in
          let none_here : (one_if (k == k')) ≡ 0 = rw other refl in
          (
            os',
            get_elem?-set_ne m.object_service_list k k' (given os) ne ∙ f',
            id',
            omega (arith, len', none_here),
            ids',
          )
    ]

    own_replicas :
        (os : ObjectService) (b : BSet)
        → get_elem? m.object_service_list k ≡ some os
        → get_elem? m.bset l ≡ some b
        → (j' : ℕ) → IsPlaced j (suc i) l j'
        → get_elem? (set b.object_service_ids j os.id) j' ≡ some (owner k)
    own_replicas os b f g j' q =
        let (os₀, f₀, id₀, len₀, ids₀) = h.service k k-lt in
        let (b₀, g₀, bid₀, blen₀, all₀) = h.bset l l-lt in
        let e : os₀ ≡ os = cc in
        let e₀ : b₀ ≡ b = cc in
        let id : os.id ≡ owner k = ap (λ (t : ObjectService). t.id) (sym e) ∙ id₀ in
        let ids = ap (λ (t : BSet). t.object_service_ids) e₀ in
        let in_range : j < length b.object_service_ids = omega (arith, row, blen₀, ap length ids) in
        elim (Bool-cases (j == j')) [
          | inl same ↦
              let here : j ≡ j' = ground arith in
              ap (get_elem? (set b.object_service_ids j os.id)) (sym here)
              ∙ get_elem?-set_self b.object_service_ids j os.id in_range
              ∙ ap some id
          | inr other ↦
              let ne : j ≢ j' = ground arith in
              get_elem?-set_ne b.object_service_ids j j' os.id ne
              ∙ ap (λ t. get_elem? t j') (sym ids)
              ∙ all₀ j' (earlier_placed l j' (λ u. ne (sym u)) q)
        ]

    placed-bset :
        (os : ObjectService) (b : BSet)
        → get_elem? m.object_service_list k ≡ some os
        → get_elem? m.bset l ≡ some b
        → (l' : ℕ) → l' < N
        → (b' : BSet) × (get_elem? (placed os b).bset l' ≡ some b')
          × (b'.id ≡ l')
          × (length b'.object_service_ids ≡ r)
          × ((j' : ℕ)
              → IsPlaced j (suc i) l' j'
              → get_elem? b'.object_service_ids j' ≡ some (owner (l' % n)))
    placed-bset os b f g l' lt' = elim (Bool-cases (l == l')) [
      | inl same ↦
          let e : l ≡ l' = ground arith in
          let (b₀, g₀, id₀, len₀, all₀) = h.bset l l-lt in
          let e₀ : b₀ ≡ b = cc in
          let self = get_elem?-set_self m.bset l (written os b) (get_elem?-lt m.bset l b g) in
          (
            written os b,
            ap (get_elem? (set m.bset l (written os b))) (sym e) ∙ self,
            ap (λ (t : BSet). t.id) (sym e₀) ∙ id₀ ∙ e,
            length-set b.object_service_ids j os.id
                ∙ ap (λ (t : BSet). length t.object_service_ids) (sym e₀)
                ∙ len₀,
            subst
                (λ t.
                  (j' : ℕ)
                  → IsPlaced j (suc i) t j'
                  → get_elem? (written os b).object_service_ids j' ≡ some (owner (t % n)))
                e (own_replicas os b f g),
          )
      | inr other ↦
          let ne : l ≢ l' = ground arith in
          let (b', g', id', len', all') = h.bset l' lt' in
          (
            b',
            get_elem?-set_ne m.bset l l' (written os b) ne ∙ g',
            id',
            len',
            λ j' q. all' j' (still_placed l' j' (λ u. ne (sym u)) q),
          )
    ]

    pub cmm_place-IsFilled :
        (avg : ℕ)
        → j + i < 2 ^ 32
        → load j i k < avg
        → (m' : ObjectServiceMap) × (cmm_place avg j i m ≡ ok m') × IsFilled j (suc i) m'
    cmm_place-IsFilled avg small space =
        let (os, f, id, len, ids) = h.service k k-lt in
        let (b, g, bid, blen, all) = h.bset l l-lt in
        (
          placed os b,
          cmm_place-placed avg os b small f g (omega (arith, len, space)),
          record {
            services = h.services;
            bsets = h.bsets;
            service = placed-service os b f;
            bset = placed-bset os b f g;
          },
        )
