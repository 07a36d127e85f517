-- ===== src/Base/Bits/Step.antt =====
-- The bitwise operations, one binary digit at a time.
use Prim.Native.Nat.{bit_and, bit_or, bit_xor, differ, min, max, digits, bitwise}
use Prim.Native.Nat.{bit_and-bitwise, bit_or-bitwise, bit_xor-bitwise}
use Prim.Native.Nat.{ℕ, zero, suc, ◌+◌, ◌*◌, ◌/◌, ◌%◌, ◌≤◌}
use mathlib.Core.Path.{◌≡◌, refl, ap}
use native.Mathlib.Omega.{arith}

module _ (rest : ℕ → ℕ) (op : ℕ → ℕ → ℕ) where
  -- Any two counts of digits that cover the first number give the same.
  same_count : (c d x y : ℕ) → x ≤ c → x ≤ d → digits rest op c x y ≡ digits rest op d x y
  same_count c d zero y hc hd = both c d
    where
      both : (c d : ℕ) → digits rest op c 0 y ≡ digits rest op d 0 y
      both zero zero = refl
      both zero (suc d) = refl
      both (suc c) zero = refl
      both (suc c) (suc d) = refl
  same_count zero d (suc x) y hc hd = absurd (omega arith)
  same_count (suc c) zero (suc x) y hc hd = absurd (omega arith)
  same_count (suc c) (suc d) (suc x) y hc hd =
      ap (λ t. t * 2 + op (suc x % 2) (y % 2))
        (same_count c d (suc x / 2) (y / 2) (omega arith) (omega arith))

  one_digit :
      (x y : ℕ)
      → bitwise rest op (suc x) y ≡ bitwise rest op (suc x / 2) (y / 2) * 2 + op (suc x % 2) (y % 2)
  one_digit x y =
      ap (λ t. t * 2 + op (suc x % 2) (y % 2))
        (same_count x (suc x / 2) (suc x / 2) (y / 2) (omega arith) (omega arith))

pub or_step : (a b : ℕ) → bit_or a b ≡ bit_or (a / 2) (b / 2) * 2 + max (a % 2) (b % 2)
or_step zero b = omega (arith, bit_or-bitwise 0 b, bit_or-bitwise 0 (b / 2))
or_step (suc a) b = omega (
  arith,
  bit_or-bitwise (suc a) b,
  bit_or-bitwise (suc a / 2) (b / 2),
  one_digit (λ y. y) max a b,
)

pub and_step : (a b : ℕ) → bit_and a b ≡ bit_and (a / 2) (b / 2) * 2 + min (a % 2) (b % 2)
and_step zero b = omega (arith, bit_and-bitwise 0 b, bit_and-bitwise 0 (b / 2))
and_step (suc a) b = omega (
  arith,
  bit_and-bitwise (suc a) b,
  bit_and-bitwise (suc a / 2) (b / 2),
  one_digit (λ y. 0) min a b,
)

pub xor_step : (a b : ℕ) → bit_xor a b ≡ bit_xor (a / 2) (b / 2) * 2 + differ (a % 2) (b % 2)
xor_step zero b = omega (arith, bit_xor-bitwise 0 b, bit_xor-bitwise 0 (b / 2), zero_differ (b % 2))
  where
    zero_differ : (y : ℕ) → differ 0 y ≡ y
    zero_differ y = refl
xor_step (suc a) b = omega (
  arith,
  bit_xor-bitwise (suc a) b,
  bit_xor-bitwise (suc a / 2) (b / 2),
  one_digit (λ y. y) differ a b,
)
