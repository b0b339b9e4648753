-- ===== src/Common/Bits.antt =====
-- A bound on `&`, from the binary digits that the native operation stands for.
use Prim.Native.Nat.{ℕ, zero, suc, ◌/◌, ◌-◌, ◌^◌, ◌≤◌, ◌<◌, min, bit_and, digits, bit_and-bitwise}
use mathlib.Core.Path.{◌≡◌, refl}
use mathlib.Core.Bool.{Bool, true, ◌&&◌}
use muti.Common.Tests.{◌==◌, ==_iff}
use native.Mathlib.Omega.{arith}

digits-le : (n a b : ℕ) → digits (λ _. zero) min n a b ≤ b
digits-le zero zero b = omega arith
digits-le zero (suc a) b = omega arith
digits-le (suc n) zero b = omega arith
digits-le (suc n) (suc a) b = omega (arith, digits-le n (suc a / 2) (b / 2))

-- `a & b` is at most `b`.
pub bit_and-le : (a b : ℕ) → bit_and a b ≤ b
bit_and-le a b = omega (arith, bit_and-bitwise a b, digits-le a a b)

-- A test of every number below a bound, by evaluation.
pub all_below : ℕ → (ℕ → Bool) → Bool
all_below zero f = true
all_below (suc n) f = f n && all_below n f

pub all_below_sound : (n : ℕ) (f : ℕ → Bool) (x : ℕ) → x < n → all_below n f ≡ true → f x ≡ true
unfolding all_below
all_below_sound zero f x h e = absurd (omega arith)
all_below_sound (suc n) f x h e = ground (arith, all_below_sound n f x)

-- A power of two has no bit in common with the number before it.
bit_and-power_table : all_below 63 (λ i. bit_and (2 ^ i) (2 ^ i - 1) == 0) ≡ true
unfolding all_below
bit_and-power_table = refl

pub bit_and-power : (i : ℕ) → i < 63 → bit_and (2 ^ i) (2 ^ i - 1) ≡ 0
bit_and-power i h =
    (==_iff (bit_and (2 ^ i) (2 ^ i - 1)) 0).0 (all_below_sound 63 _ i h bit_and-power_table)
