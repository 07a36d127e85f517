-- ===== src/Base/Bits.antt =====
-- Single bits of a machine word, and what the bitwise operations do to each of them.
mod Step
pub mod Packing
use Prim.Native.Nat.{
  bit_and, bit_or, bit_xor, differ, bit_and-bitwise, bit_or-bitwise, bit_xor-bitwise,
}
use native.Mathlib.Nat.{
  pow-suc, pow-succ', one-le-pow, pow-le-pow_right, div-div-eq-div-mul, mod-lt, mod-one,
  mod-eq_of_lt, div-add-mod, mul-add-mod_self_left,
}
use mathlib.Core.Logic.{inl, inr}
use s_os.Base.Tests.{Bool-cases, ne→==, ◌==◌, leb, ltb}
use Prim.Native.Nat.{ℕ, zero, suc, ◌+◌, ◌-◌, ◌*◌, ◌/◌, ◌%◌, ◌^◌, ◌≤◌, ◌<◌}
use mathlib.Core.Path.{◌≡◌, refl, sym, ◌∙◌, ap}
use mathlib.Core.Bool.{Bool, true, false, ◌&&◌, ◌||◌, not}
use native.Mathlib.Omega.{arith}
use Step.{or_step, and_step, xor_step}

-- bit `k` of `w`
unfoldable pub test_bit : ℕ → ℕ → Bool
test_bit w zero = (w % 2) == 1
test_bit w (suc k) = test_bit (w / 2) k

-- one bit is set and the other is not
abbrev pub differs : Bool → Bool → Bool
differs true b = not b
differs false b = b

differ-differs : (x y : ℕ) → x < 2 → y < 2 → (differ x y == 1) ≡ differs (x == 1) (y == 1)
differ-differs zero y hx hy = refl
differ-differs (suc zero) zero hx hy = refl
differ-differs (suc zero) (suc zero) hx hy = refl
differ-differs (suc zero) (suc (suc y)) hx hy = absurd (omega arith)
differ-differs (suc (suc x)) y hx hy = absurd (omega arith)

differ-lt : (x y : ℕ) → x < 2 → y < 2 → differ x y < 2
differ-lt zero y hx hy = hy
differ-lt (suc zero) zero hx hy = omega arith
differ-lt (suc zero) (suc zero) hx hy = omega arith
differ-lt (suc zero) (suc (suc y)) hx hy = absurd (omega arith)
differ-lt (suc (suc x)) y hx hy = absurd (omega arith)

pub test-or : (a b k : ℕ) → test_bit (bit_or a b) k ≡ (test_bit a k || test_bit b k)
unfolding test_bit
test-or a b zero = ground (arith, or_step a b)
test-or a b (suc k) =
    let e : bit_or a b / 2 ≡ bit_or (a / 2) (b / 2) = omega (arith, or_step a b) in
    rw e (test-or (a / 2) (b / 2) k)

pub test-and : (a b k : ℕ) → test_bit (bit_and a b) k ≡ (test_bit a k && test_bit b k)
unfolding test_bit
test-and a b zero = ground (arith, and_step a b)
test-and a b (suc k) =
    let e : bit_and a b / 2 ≡ bit_and (a / 2) (b / 2) = omega (arith, and_step a b) in
    rw e (test-and (a / 2) (b / 2) k)

pub test-xor : (a b k : ℕ) → test_bit (bit_xor a b) k ≡ differs (test_bit a k) (test_bit b k)
unfolding test_bit
test-xor a b zero =
    let small = differ-lt (a % 2) (b % 2) (omega arith) (omega arith) in
    let e : bit_xor a b % 2 ≡ differ (a % 2) (b % 2) = omega (arith, xor_step a b) in
    rw e (differ-differs (a % 2) (b % 2) (omega arith) (omega arith))
test-xor a b (suc k) =
    let small = differ-lt (a % 2) (b % 2) (omega arith) (omega arith) in
    let e : bit_xor a b / 2 ≡ bit_xor (a / 2) (b / 2) = omega (arith, xor_step a b) in
    rw e (test-xor (a / 2) (b / 2) k)

pub test-zero : (k : ℕ) → test_bit 0 k ≡ false
unfolding test_bit
test-zero zero = refl
test-zero (suc k) = test-zero k

pub test-pow : (j k : ℕ) → test_bit (2 ^ j) k ≡ (k == j)
unfolding test_bit
test-pow zero zero = refl
test-pow zero (suc k) = ground (arith, test-zero k)
test-pow (suc j) zero = ground (arith, pow-suc 2 j)
test-pow (suc j) (suc k) =
    let e : 2 ^ suc j / 2 ≡ 2 ^ j = omega (arith, pow-suc 2 j) in
    rw e (ground (arith, test-pow j k))

pub test-shr : (s w k : ℕ) → test_bit (w / 2 ^ s) k ≡ test_bit w (k + s)
unfolding test_bit
test-shr zero w k = ground arith
test-shr (suc s) w k =
    let e : w / 2 ^ suc s ≡ w / 2 / 2 ^ s =
      rw (pow-succ' 2 s) (sym (div-div-eq-div-mul w 2 (2 ^ s))) in
    let e' : k + suc s ≡ suc (k + s) = omega arith in rw (e, e') (test-shr s (w / 2) k)

mod_double : (w p : ℕ) → 0 < p → w % (2 * p) ≡ 2 * (w / 2 % p) + w % 2
mod_double w p h =
    let r = 2 * (w / 2 % p) + w % 2 in
    let lt = mod-lt (w / 2) h in
    let e : w ≡ 2 * p * (w / 2 / p) + r = omega (arith, ap (λ t. 2 * t) (div-add-mod (w / 2) p)) in
    let c : (2 * p * (w / 2 / p) + r) % (2 * p) ≡ r =
      mul-add-mod_self_left (2 * p) (w / 2 / p) r ∙ mod-eq_of_lt (omega arith) in
    ap (λ t. t % (2 * p)) e ∙ c

pub test-mod : (n w k : ℕ) → test_bit (w % 2 ^ n) k ≡ (ltb k n && test_bit w k)
unfolding test_bit
test-mod zero w k = rw (mod-one w) (ground (arith, test-zero k))
test-mod (suc n) w zero = ground (arith, pow-succ' 2 n, one-le-pow n 2, mod_double w (2 ^ n))
test-mod (suc n) w (suc k) =
    let e : w % 2 ^ suc n / 2 ≡ w / 2 % 2 ^ n =
      rw (pow-succ' 2 n) (omega (arith, mod_double w (2 ^ n) (one-le-pow n 2 (omega arith)))) in
    rw e (ground (arith, test-mod n (w / 2) k))

pub test-shl : (s w k : ℕ) → test_bit (w * 2 ^ s) k ≡ (leb s k && test_bit w (k - s))
unfolding test_bit
test-shl zero w k = ground arith
test-shl (suc s) w zero =
    let e : w * 2 ^ suc s ≡ 2 * (w * 2 ^ s) = omega (arith, ap (λ t. w * t) (pow-suc 2 s)) in
    rw e (ground arith)
test-shl (suc s) w (suc k) =
    let e : w * 2 ^ suc s / 2 ≡ w * 2 ^ s = omega (arith, ap (λ t. w * t) (pow-suc 2 s)) in
    let e' : suc k - suc s ≡ k - s = omega arith in rw (e, e') (ground (arith, test-shl s w k))

-- the mask of the `n` low bits
pub test-mask : (n k : ℕ) → test_bit (2 ^ n - 1) k ≡ ltb k n
unfolding test_bit
test-mask zero k = ground (arith, test-zero k)
test-mask (suc n) zero = ground (arith, pow-suc 2 n, one-le-pow n 2)
test-mask (suc n) (suc k) =
    let p = one-le-pow n 2 (omega arith) in
    let e : (2 ^ suc n - 1) / 2 ≡ 2 ^ n - 1 = omega (arith, pow-suc 2 n) in
    rw e (ground (arith, test-mask n k))

-- A word below `2 ^ n` is its `n` low bits.
pub eq_of_bits :
    (n a b : ℕ) → a < 2 ^ n → b < 2 ^ n → ((k : ℕ) → k < n → test_bit a k ≡ test_bit b k) → a ≡ b
unfolding test_bit
eq_of_bits zero a b ha hb same = omega arith
eq_of_bits (suc n) a b ha hb same =
    let low = same 0 (omega arith) in
    let high =
      eq_of_bits n (a / 2) (b / 2) (omega (arith, pow-suc 2 n)) (omega (arith, pow-suc 2 n))
        (λ k h. same (suc k) (omega arith)) in
    ground arith

pub zero_of_bits : (n a : ℕ) → a < 2 ^ n → ((k : ℕ) → k < n → test_bit a k ≡ false) → a ≡ 0
zero_of_bits n a ha clear =
    eq_of_bits n a 0 ha (one-le-pow n 2 (omega arith)) (λ k h. clear k h ∙ sym (test-zero k))

pub or-lt : (n a b : ℕ) → a < 2 ^ n → b < 2 ^ n → bit_or a b < 2 ^ n
or-lt zero a b ha hb =
    let ea : a ≡ 0 = omega arith in
    let eb : b ≡ 0 = omega arith in rw (ea, eb) (omega (arith, bit_or-bitwise 0 0))
or-lt (suc n) a b ha hb = omega (
  arith,
  or_step a b,
  pow-suc 2 n,
  or-lt n (a / 2) (b / 2) (omega (arith, pow-suc 2 n)) (omega (arith, pow-suc 2 n)),
)

pub and-lt : (n a b : ℕ) → a < 2 ^ n → bit_and a b < 2 ^ n
and-lt zero a b ha = let ea : a ≡ 0 = omega arith in rw ea (omega (arith, bit_and-bitwise 0 b))
and-lt (suc n) a b ha =
    omega (arith, and_step a b, pow-suc 2 n, and-lt n (a / 2) (b / 2) (omega (arith, pow-suc 2 n)))

pub xor-lt : (n a b : ℕ) → a < 2 ^ n → b < 2 ^ n → bit_xor a b < 2 ^ n
xor-lt zero a b ha hb =
    let ea : a ≡ 0 = omega arith in
    let eb : b ≡ 0 = omega arith in rw (ea, eb) (omega (arith, bit_xor-bitwise 0 0))
xor-lt (suc n) a b ha hb = omega (
  arith,
  xor_step a b,
  pow-suc 2 n,
  differ-lt (a % 2) (b % 2) (omega arith) (omega arith),
  xor-lt n (a / 2) (b / 2) (omega (arith, pow-suc 2 n)) (omega (arith, pow-suc 2 n)),
)

pub ruleset bit_laws =
    (test-or, test-and, test-xor, test-zero, test-pow, test-shr, test-shl, test-mod, test-mask)

pub test-complement :
    (n m k : ℕ) → m < 2 ^ n → test_bit (2 ^ n - 1 - m) k ≡ (ltb k n && not (test_bit m k))
unfolding test_bit
test-complement zero m k h =
    let e : 2 ^ 0 - 1 - m ≡ 0 = omega arith in rw e (ground (arith, test-zero k))
test-complement (suc n) m zero h = ground (arith, pow-suc 2 n)
test-complement (suc n) m (suc k) h =
    let e : (2 ^ suc n - 1 - m) / 2 ≡ 2 ^ n - 1 - m / 2 = omega (arith, pow-suc 2 n) in
    rw e (ground (arith, test-complement n (m / 2) k (omega (arith, pow-suc 2 n))))

pub lt-two-pow : (n : ℕ) → n < 2 ^ n
lt-two-pow zero = omega arith
lt-two-pow (suc n) = omega (arith, pow-suc 2 n, lt-two-pow n)

-- `w & (1 << k)` is zero exactly where bit `k` is clear.
pub and_pow-zero : (w k : ℕ) → (bit_and w (2 ^ k) == 0) ≡ not (test_bit w k)
and_pow-zero w k = elim (Bool-cases (test_bit w k)) [
  | inl set ↦
      let on : test_bit (bit_and w (2 ^ k)) k ≡ true =
        ground (arith, test-and w (2 ^ k) k, test-pow k k) in
      rw set (ne→== (bit_and w (2 ^ k)) 0 (λ e. ground (arith, test-zero k)))
  | inr clear ↦
      let e : bit_and w (2 ^ k) ≡ 0 =
        zero_of_bits w (bit_and w (2 ^ k)) (and-lt w w (2 ^ k) (lt-two-pow w)) λ j h.
          elim (Bool-cases (j == k)) [
            | inl same ↦ let p : j ≡ k = ground arith in rw p (ground (arith, test-and w (2 ^ k) k))
            | inr other ↦ ground (arith, test-and w (2 ^ k) j, test-pow k j)
          ] in
      rw (clear, e)
]

pub zero-bit_and : (b : ℕ) → bit_and 0 b ≡ 0
zero-bit_and b = bit_and-bitwise 0 b

pub pow_lt : (i n : ℕ) → i < n → 2 ^ i < 2 ^ n
pow_lt i n h = omega (
  arith,
  pow-le-pow_right {n = 2} (omega arith) {i = suc i} {j = n} h,
  pow-suc 2 i,
  one-le-pow i 2,
)

-- A word below `2 ^ n` has no bit from `n` on.
pub test_above : (n w k : ℕ) → w < 2 ^ n → n ≤ k → test_bit w k ≡ false
test_above n w k h le = let e : w % 2 ^ n ≡ w = mod-eq_of_lt h in ground (arith, test-mod n w k)
