-- ===== src/Base/Bits/Packing.antt =====
-- Fields that are masked and put together in a word.
use Prim.Native.Nat.{
  bit_and, bit_or, bit_or-bitwise, ℕ, zero, suc, ◌+◌, ◌-◌, ◌*◌, ◌/◌, ◌%◌, ◌^◌, ◌<◌,
}
use native.Mathlib.Nat.{pow-suc, one-le-pow, mod-le}
use mathlib.Core.Path.{◌≡◌, ap}
use native.Mathlib.Omega.{arith}
use s_os.Base.Bits.{test-and, test-mask, test-mod, eq_of_bits, and-lt, lt-two-pow}
use s_os.Base.Bits.Step.{or_step}

pub and_mask : (n w : ℕ) → bit_and w (2 ^ n - 1) ≡ w % 2 ^ n
and_mask n w =
    eq_of_bits w (bit_and w (2 ^ n - 1)) (w % 2 ^ n) (and-lt w w (2 ^ n - 1) (lt-two-pow w))
      (omega (arith, lt-two-pow w, one-le-pow n 2, mod-le w (2 ^ n)))
      (λ i k. ground (arith, test-and w (2 ^ n - 1) i, test-mask n i, test-mod n w i))

zero_or : (a b : ℕ) → a ≡ 0 → bit_or a b ≡ b
zero_or a b e = rw e (omega (arith, bit_or-bitwise 0 b))

-- words that have no bit in common
pub or_add : (n a b : ℕ) → a < 2 ^ n → bit_or a (b * 2 ^ n) ≡ a + b * 2 ^ n
or_add zero a b h = omega (arith, zero_or a (b * 1) (omega arith))
or_add (suc n) a b h =
    let e : b * 2 ^ suc n ≡ b * 2 ^ n * 2 = omega (arith, ap (λ t. b * t) (pow-suc 2 n)) in
    let half : b * 2 ^ n * 2 / 2 ≡ b * 2 ^ n = omega arith in
    let even : b * 2 ^ n * 2 % 2 ≡ 0 = omega arith in
    let step = or_step a (b * 2 ^ n * 2) in
    let rest = or_add n (a / 2) b (omega (arith, pow-suc 2 n)) in
    rw (e, step, half, even, rest) (omega arith)
