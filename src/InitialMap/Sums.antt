-- ===== src/InitialMap/Sums.antt =====
-- Sums over the numbers below a bound, which count the bsets of a service.
use muti.Common.{
  ℕ, zero, suc, ◌+◌, ◌*◌, ◌%◌, ◌<◌, ◌≤◌, ◌≡◌, refl, ap, ltb, inl, inr, Bool, true, false,
  Bool-cases, ◌∙◌, ◌==◌, arith,
}
use native.Mathlib.Nat.{mod-eq_of_lt, add-mod_right, mul-add-mod_self_right}

abbrev pub one_if : Bool → ℕ
one_if true = 1
one_if false = 0

abbrev pub sum_below : ℕ → (ℕ → ℕ) → ℕ
sum_below zero f = 0
sum_below (suc n) f = sum_below n f + f n

pub sum_below-cong :
    (n : ℕ) (f g : ℕ → ℕ) → ((i : ℕ) → i < n → f i ≡ g i) → sum_below n f ≡ sum_below n g
sum_below-cong zero f g h = refl
sum_below-cong (suc n) f g h =
    omega (arith, sum_below-cong n f g (λ i lt. h i (omega (arith, lt))), h n (omega arith))

-- A sum that starts one later.
sum_below-shift : (n : ℕ) (f : ℕ → ℕ) → sum_below n (λ i. f (suc i)) + f 0 ≡ sum_below n f + f n
sum_below-shift zero f = refl
sum_below-shift (suc n) f = omega (arith, sum_below-shift n f)

sum_below-append :
    (m n : ℕ) (f : ℕ → ℕ) → sum_below (n + m) f ≡ sum_below m f + sum_below n (λ i. f (m + i))
sum_below-append m zero f = ground arith
sum_below-append m (suc n) f =
    let e : suc n + m ≡ suc (n + m) = omega arith in
    let last : f (n + m) ≡ f (m + n) = ap f (omega arith) in
    rw e (omega (arith, sum_below-append m n f, last))

pub sum_below-le : (m n : ℕ) (f : ℕ → ℕ) → m ≤ n → sum_below m f ≤ sum_below n f
sum_below-le m zero f h = ground arith
sum_below-le m (suc n) f h = elim (Bool-cases (m == suc n)) [
  | inl e ↦ let same : m ≡ suc n = ground arith in rw same (omega arith)
  | inr ne ↦ omega (arith, sum_below-le m n f (ground arith))
]

-- A round that starts at j sums the same.
pub sum_below-rotate :
    (n j : ℕ) (f : ℕ → ℕ) → 0 < n → sum_below n (λ i. f ((j + i) % n)) ≡ sum_below n f
sum_below-rotate n zero f pos =
    sum_below-cong n _ f (λ i lt. ap f (mod-eq_of_lt {n = 0 + i} (omega (arith, lt)) ∙ omega arith))
sum_below-rotate n (suc j) f pos =
    let g : ℕ → ℕ = λ i. f ((j + i) % n) in
    let later =
      sum_below-cong n (λ i. f ((suc j + i) % n)) (λ i. g (suc i))
        (λ i lt. ap (λ t. f (t % n)) (omega arith)) in
    let ends : g n ≡ g 0 = ap f (add-mod_right j n ∙ ap (λ t. t % n) (omega arith)) in
    omega (arith, later, ends, sum_below-shift n g, sum_below-rotate n j f pos)

single : (n k : ℕ) → sum_below n (λ i. one_if (i == k)) ≡ (one_if (ltb k n))
single zero k = ground arith
single (suc n) k = ground (arith, single n k)

-- How many bsets below a bound fall to a service.
abbrev pub share : ℕ → ℕ → ℕ → ℕ
share n bsets k = sum_below bsets (λ l. one_if (l % n == k))

pub share-even : (n q k : ℕ) → k < n → share n (q * n) k ≡ q
share-even n zero k lt = let e : 0 * n ≡ 0 = omega arith in rw e refl
share-even n (suc q) k lt =
    let e : suc q * n ≡ n + q * n = omega arith in
    let f : ℕ → ℕ = λ l. one_if (l % n == k) in
    let block =
      sum_below-cong n (λ i. f (q * n + i)) (λ i. one_if (i == k))
        (λ i less. ap (λ t. one_if (t == k)) (mul-add-mod_self_right q n i ∙ mod-eq_of_lt less)) in
    rw e (ground (arith, sum_below-append (q * n) n f, block, single n k, share-even n q k lt, lt))
