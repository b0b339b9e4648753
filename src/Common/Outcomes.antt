-- ===== src/Common/Outcomes.antt =====
-- How a call of the C code ends: `ok`, with its result; `failed`, when it returns false or NULL; and
-- `aborted`, when an assert or an exit stops the process or an array is accessed out of its bounds.
use Prim.Native.Nat.{ℕ, zero, suc}
use mathlib.Core.Path.{◌≡◌, refl}
use mathlib.Core.Logic.{◌⊎◌, inl, inr}
use mathlib.Core.Bool.{Bool, true, false}
use mathlib.Core.List.{List, [], ◌∷◌}
use mathlib.Core.Option.{some}
use muti.Common.Lists.{get_elem?}

pub data Outcome {ℓ} (A : Type ℓ) : Type ℓ where
  ok : A → Outcome A
  failed : Outcome A
  aborted : Outcome A

infixl 5 ◌>>=◌ ◌>>◌
abbrev pub ◌>>=◌ {ℓ κ} : {A : Type ℓ} {B : Type κ} → Outcome A → (A → Outcome B) → Outcome B
ok a >>= f = f a
failed >>= f = failed
aborted >>= f = aborted

abbrev pub ◌>>◌ {ℓ} : {B : Type ℓ} → Outcome (Unit {0}) → Outcome B → Outcome B
m >> k = m >>= λ _. k

-- `assert(b)`
abbrev pub assert : Bool → Outcome (Unit {0})
assert true = ok tt
assert false = aborted

-- `a[i]`
abbrev pub at {ℓ} : {A : Type ℓ} → List A → ℕ → Outcome A
at [] i = aborted
at (x ∷ xs) zero = ok x
at (x ∷ xs) (suc i) = at xs i

pub at-get_elem? {ℓ} :
    {A : Type ℓ} (xs : List A) (i : ℕ) (a : A) → get_elem? xs i ≡ some a → at xs i ≡ ok a
at-get_elem? [] i a h = cc
at-get_elem? (x ∷ xs) zero a h = cc
at-get_elem? (x ∷ xs) (suc i) a h = at-get_elem? xs i a h

pub at-eq-ok {ℓ} :
    {A : Type ℓ} (xs : List A) (i : ℕ) (a : A) → at xs i ≡ ok a → get_elem? xs i ≡ some a
at-eq-ok [] i a h = cc
at-eq-ok (x ∷ xs) zero a h = cc
at-eq-ok (x ∷ xs) (suc i) a h = at-eq-ok xs i a h

pub >>=-eq-ok {ℓ κ} :
    {A : Type ℓ} {B : Type κ} (run : Outcome A) (step : A → Outcome B) {c : B}
    → (run >>= step) ≡ ok c
    → (x : A) × (run ≡ ok x) × (step x ≡ ok c)
>>=-eq-ok (ok x) step e = (x, refl, e)
>>=-eq-ok failed step e = cc
>>=-eq-ok aborted step e = cc

pub Outcome-cases {ℓ} :
    {A : Type ℓ} (m : Outcome A) → ((a : A) × (m ≡ ok a)) ⊎ ((m ≡ failed) ⊎ (m ≡ aborted))
Outcome-cases (ok a) = inl (a, refl)
Outcome-cases failed = inr (inl refl)
Outcome-cases aborted = inr (inr refl)
