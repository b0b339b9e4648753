-- ===== src/Common/Counts.antt =====
-- How often a number stands in a list.
use Prim.Native.Nat.{ℕ, zero, suc, ◌+◌, ◌-◌, ◌<◌}
use mathlib.Core.Path.{◌≡◌}
use mathlib.Core.Option.{some}
use mathlib.Core.List.{List, [], ◌∷◌, ◌++◌, map}
use native.Mathlib.Omega.{arith}
use muti.Common.Tests.{◌==◌, if◌then◌else◌}
use muti.Common.Lists.{length, get_elem?, remove_at, replicate}

abbrev pub count : ℕ → List ℕ → ℕ
count j [] = 0
count j (k ∷ ks) = let rest = count j ks in if j == k then suc rest else rest

-- The list without its first occurrence of a number.
abbrev pub drop_one : ℕ → List ℕ → List ℕ
drop_one j [] = []
drop_one j (k ∷ ks) = if j == k then ks else k ∷ drop_one j ks

pub count-append : (j : ℕ) (xs ys : List ℕ) → count j (xs ++ ys) ≡ count j xs + count j ys
count-append j [] ys = omega arith
count-append j (x ∷ xs) ys = ground (arith, count-append j xs ys)

pub count-replicate : (j n k : ℕ) → count j (replicate n k) ≡ (if j == k then n else 0)
count-replicate j zero k = ground arith
count-replicate j (suc n) k = ground (arith, count-replicate j n k)

pub count-drop_one :
    (j k : ℕ) (xs : List ℕ)
    → count j (drop_one k xs) ≡ (if j == k then count j xs - 1 else count j xs)
count-drop_one j k [] = ground arith
count-drop_one j k (x ∷ xs) = ground (arith, count-drop_one j k xs)

-- The reference count of one buffer changes.
unfoldable pub set_reference : (ℕ → ℕ) → ℕ → ℕ → ℕ → ℕ
set_reference f b n k = if k == b then n else f k

-- What is taken out of a list is counted once less.
pub count-remove_at {ℓ} :
    {A : Type ℓ} (f : A → ℕ) (j i : ℕ) (xs : List A) (x : A)
    → get_elem? xs i ≡ some x
    → count j (map f xs) ≡ count j (f x ∷ map f (remove_at i xs))
count-remove_at f j i [] x e = cc
count-remove_at f j zero (y ∷ xs) x e = ground arith
count-remove_at f j (suc i) (y ∷ xs) x e = ground (arith, count-remove_at f j i xs x e)

pub length-remove_at {ℓ} :
    {A : Type ℓ} (i : ℕ) (xs : List A) → i < length xs → length xs ≡ suc (length (remove_at i xs))
length-remove_at i [] h = absurd (omega arith)
length-remove_at zero (x ∷ xs) h = omega arith
length-remove_at (suc i) (x ∷ xs) h = omega (arith, length-remove_at i xs)
