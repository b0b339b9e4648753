-- ===== src/InitialMap/Shares.antt =====
-- The loops of `cmmFillBSets` to their ends, and how many bsets a service gets.
use muti.Common.{
  ℕ, zero, suc, ◌+◌, ◌-◌, ◌*◌, ◌%◌, ◌^◌, ◌<◌, ◌≤◌, ◌≡◌, inl, inr, refl, sym, ap, subst, ◌∙◌, ok,
  leb, ◌==◌, Bool-cases, arith,
}
use native.Mathlib.Nat.{mod-lt, mod-eq_of_lt, suc-mul, mul-le-mul_right, mod-add-mod, add-mod_right}
use muti.ClusterMap.{ObjectServiceMap}
use muti.InitialMap.{cmm_place_row, cmm_place_rows}
use muti.InitialMap.Sums.{one_if, share, sum_below-le, sum_below-rotate}
use muti.InitialMap.Rounds.{IsPlaced, load, IsFilled, cmm_place-IsFilled}

module _ (n N r : ℕ) (owner : ℕ → ℕ) where
  -- Before a round the service of the round has space.
  load-lt :
      (j i : ℕ)
      → 0 < n
      → i < N
      → j < r
      → load n N r owner j i ((j + i) % N % n) < r * share n N ((j + i) % N % n)
  load-lt j i pos lt row =
      let k = (j + i) % N % n in
      let here : one_if (k == k) ≡ 1 = ground arith in
      let part = sum_below-le (suc i) N (λ t. one_if ((j + t) % N % n == k)) lt in
      let whole = sum_below-rotate N j (λ l. one_if (l % n == k)) (omega (arith, lt)) in
      let rows = mul-le-mul_right (share n N k) row in
      omega (arith, part, whole, rows, here, suc-mul j (share n N k))

  -- The rest of a row, if no service gets more than its space.
  cmm_place_row-IsFilled :
      (rest avg j i : ℕ) (m : ObjectServiceMap)
      → 0 < n
      → j < r
      → rest + i ≡ N
      → j + N < 2 ^ 32
      → ((k : ℕ) → k < n → r * share n N k ≤ avg)
      → IsFilled n N r owner j i m
      → (m' : ObjectServiceMap) × (cmm_place_row rest avg j i m ≡ ok m')
        × IsFilled n N r owner j N m'
  unfolding cmm_place_row
  cmm_place_row-IsFilled zero avg j i m pos row ends small fits h =
      let done : i ≡ N = omega arith in (m, refl, subst (λ t. IsFilled n N r owner j t m) done h)
  cmm_place_row-IsFilled (suc rest) avg j i m pos row ends small fits h =
      let lt : i < N = omega arith in
      let k-lt = mod-lt ((j + i) % N) pos in
      let room : load n N r owner j i ((j + i) % N % n) < avg =
        omega (arith, load-lt j i pos lt row, fits ((j + i) % N % n) k-lt) in
      let (m₁, run₁, h₁) =
        cmm_place-IsFilled n N r owner j i m pos lt row h avg (omega (arith, small, lt)) room in
      let (m₂, run₂, h₂) =
        cmm_place_row-IsFilled rest avg j (suc i) m₁ pos row (omega arith) small fits h₁ in
      (m₂, rw (run₁, run₂) refl, h₂)

  -- Each bset has its turn in a row.
  turn : (j l : ℕ) → l < N → (t : ℕ) × (t < N) × ((j + t) % N ≡ l)
  turn j l lt =
      let pos : 0 < N = omega arith in
      elim (Bool-cases (leb (j % N) l)) [
        | inl after ↦ (
          l - j % N,
          omega (arith, lt),
          sym (mod-add-mod j N (l - j % N))
              ∙ ap (λ u. u % N) (ground (arith, after))
              ∙ mod-eq_of_lt lt,
        )
        | inr before ↦ (
          l + N - j % N,
          ground (arith, before),
          sym (mod-add-mod j N (l + N - j % N))
              ∙ ap (λ u. u % N) (omega (arith, mod-lt j pos))
              ∙ add-mod_right l N
              ∙ mod-eq_of_lt lt,
        )
      ]

  placed_before :
      (j l j' : ℕ) → l < N → IsPlaced n N r owner (suc j) 0 l j' → IsPlaced n N r owner j N l j'
  placed_before j l j' lt (inl before) = elim (Bool-cases (j' == j)) [
    | inl same ↦ inr (ground arith, turn j l lt)
    | inr other ↦ inl (ground arith)
  ]
  placed_before j l j' lt (inr (e, (t, less, f))) = absurd (omega arith)

  next_row :
      (j : ℕ) (m : ObjectServiceMap)
      → 0 < N
      → IsFilled n N r owner j N m
      → IsFilled n N r owner (suc j) 0 m
  next_row j m pos h = record {
    services = h.services;
    bsets = h.bsets;
    service = λ k lt.
        let (os, f, id, len, ids) = h.service k lt in
        let whole = sum_below-rotate N j (λ l. one_if (l % n == k)) pos in
        (os, f, id, omega (arith, len, whole, suc-mul j (share n N k)), ids);
    bset = λ l lt.
        let (b, g, bid, blen, all) = h.bset l lt in
        (b, g, bid, blen, λ j' q. all j' (placed_before j l j' lt q));
  }

  pub cmm_place_rows-IsFilled :
      (rest avg j : ℕ) (m : ObjectServiceMap)
      → 0 < n
      → 0 < N
      → rest + j ≡ r
      → r + N < 2 ^ 32
      → ((k : ℕ) → k < n → r * share n N k ≤ avg)
      → IsFilled n N r owner j 0 m
      → (m' : ObjectServiceMap) × (cmm_place_rows rest avg j m ≡ ok m')
        × IsFilled n N r owner r 0 m'
  unfolding cmm_place_rows
  cmm_place_rows-IsFilled zero avg j m pos some_bset ends small fits h =
      let done : j ≡ r = omega arith in (m, refl, subst (λ t. IsFilled n N r owner t 0 m) done h)
  cmm_place_rows-IsFilled (suc rest) avg j m pos some_bset ends small fits h =
      let (m₁, run₁, h₁) =
        cmm_place_row-IsFilled N avg j 0 m pos (omega (arith, ends)) (omega arith)
          (omega (arith, ends, small)) fits h in
      let (m₂, run₂, h₂) =
        cmm_place_rows-IsFilled rest avg (suc j) m₁ pos some_bset (omega arith) small fits
          (next_row j m₁ some_bset h₁) in
      let run : cmm_place_row m.bset_length avg j 0 m ≡ ok m₁ =
        ap (λ t. cmm_place_row t avg j 0 m) h.bsets ∙ run₁ in
      (m₂, rw (run, run₂) refl, h₂)
