-- ===== src/Common/Live.antt =====
-- Counting the numbers below a bound at which a function is positive.
use muti.Common.{
  Option, none, some, ℕ, zero, suc, ◌<◌, ◌≤◌, ◌≡◌, refl, inl, inr, Bool-cases, ◌==◌, if◌then◌else◌,
  set_reference, arith,
}

-- Whether a place refers to the buffer, as a count.
abbrev pub refers : Option ℕ → ℕ → ℕ
refers none k = 0
refers (some b) k = if b == k then 1 else 0

-- How many of the first n buffers are referred to.
abbrev pub live : ℕ → (ℕ → ℕ) → ℕ
live zero f = 0
live (suc n) f = let rest = live n f in if f n == 0 then rest else suc rest

pub live-set-above : (n b k : ℕ) (f : ℕ → ℕ) → n ≤ b → live n (set_reference f b k) ≡ live n f
unfolding set_reference
live-set-above zero b k f h = refl
live-set-above (suc n) b k f h = ground (arith, live-set-above n b k f)

-- A buffer below the bound that stays referred to, or whose last reference goes.
pub live-set-positive :
    (n b k : ℕ) (f : ℕ → ℕ) → b < n → 0 < f b → 0 < k → live n (set_reference f b k) ≡ live n f
unfolding set_reference
live-set-positive zero b k f lt pos more = absurd (omega arith)
live-set-positive (suc n) b k f lt pos more =
    ground (arith, live-set-positive n b k f, live-set-above n b k f)

pub live-set-zero :
    (n b : ℕ) (f : ℕ → ℕ) → b < n → 0 < f b → suc (live n (set_reference f b 0)) ≡ live n f
unfolding set_reference
live-set-zero zero b f lt pos = absurd (omega arith)
live-set-zero (suc n) b f lt pos = ground (arith, live-set-zero n b f, live-set-above n b 0 f)

pub live-positive : (n b : ℕ) (f : ℕ → ℕ) → b < n → 0 < f b → 0 < live n f
live-positive zero b f lt pos = absurd (omega arith)
live-positive (suc n) b f lt pos = ground (arith, live-positive n b f)

pub live-some : (n : ℕ) (f : ℕ → ℕ) → 0 < live n f → (k : ℕ) × (k < n) × (0 < f k)
live-some zero f pos = absurd (omega arith)
live-some (suc n) f pos = elim (Bool-cases (f n == 0)) [
  | inr here ↦ (n, omega arith, ground (arith, here))
  | inl e ↦ let (k, lt, more) = live-some n f (ground (arith, e)) in (k, omega (arith, lt), more)
]

pub live-none : (n : ℕ) (f : ℕ → ℕ) → ((k : ℕ) → f k ≡ 0) → live n f ≡ 0
live-none zero f unused = refl
live-none (suc n) f unused = ground (arith, unused n, live-none n f unused)
