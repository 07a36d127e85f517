-- ===== src/Printk/Value.antt =====
-- The digits that number of kernel/debug/printk.c prints are those of its argument: skip_atoi reads them
-- back.
use native.Mathlib.Nat.{pow-suc}
use s_os.Base.{
  ℕ, zero, suc, ◌+◌, ◌-◌, ◌*◌, ◌/◌, ◌^◌, ◌≡◌, ◌<◌, refl, ◌∙◌, ap, subst, Bool, false, some, List,
  [], ◌∷◌, ◌++◌, map, length, ◌==◌, arith, Bool-cases, inl, inr, All,
}
use mathlib.Core.List.{append_assoc, append-nil}
use s_os.Base.Int.{negsuc}
use s_os.Printk.{skip_atoi, digit, digits_of, backwards, number}
use s_os.Printk.Number.{plain, bare-eq}

-- the value of digits, lowest first
unfoldable value : List ℕ → ℕ
value [] = 0
value (d ∷ ds) = d + 10 * value ds

value-digits_of : (f n : ℕ) → n < 10 ^ f → value (digits_of f 10 n) ≡ n
unfolding value digits_of
value-digits_of zero n h = omega arith
value-digits_of (suc f) n h = elim (Bool-cases (n == 0)) [
  | inl z ↦ rw z (ground arith)
  | inr z ↦ rw z (omega (arith, value-digits_of f (n / 10) (omega (arith, pow-suc 10 f))))
]

digits_of-small : (f n : ℕ) → All (λ d. d < 10) (digits_of f 10 n)
unfolding digits_of
digits_of-small zero n = tt
digits_of-small (suc f) n = elim (Bool-cases (n == 0)) [
  | inl z ↦ rw z tt
  | inr z ↦ rw z (omega arith, digits_of-small f (n / 10))
]

digit-small : (lower : Bool) (d : ℕ) → d < 10 → digit lower d ≡ 48 + d
unfolding digit
digit-small lower d h = ground arith

skip_atoi-digit :
    (i d : ℕ) (s : List ℕ) → d < 10 → skip_atoi i ((48 + d) ∷ s) ≡ skip_atoi (10 * i + d) s
unfolding skip_atoi
skip_atoi-digit i d s h = let e : 10 * i + (48 + d - 48) ≡ 10 * i + d = omega arith in ground arith

skip_atoi-backwards :
    (lower : Bool) (i : ℕ) (ds s : List ℕ)
    → All (λ d. d < 10) ds
    → skip_atoi i (backwards (map (digit lower) ds) ++ s)
      ≡ skip_atoi (i * 10 ^ length ds + value ds) s
unfolding backwards value
skip_atoi-backwards lower i [] s small = let e : i * 1 + 0 ≡ i = omega arith in rw e refl
skip_atoi-backwards lower i (d ∷ ds) s small =
    let c = digit lower d in
    let is : digit lower d ≡ 48 + d = digit-small lower d small.0 in
    let e : 10 * (i * 10 ^ length ds + value ds) + d
        ≡ i * 10 ^ suc (length ds) + (d + 10 * value ds) =
      omega (arith, ap (λ t. i * t) (pow-suc 10 (length ds))) in
    rw (append_assoc (backwards (map (digit lower) ds)) (c ∷ []) s) (
      skip_atoi-backwards lower i ds (c ∷ s) small.1
      ∙ rw (is, skip_atoi-digit (i * 10 ^ length ds + value ds) d s small.0, e) refl)

reads : (n : ℕ) → n < 2 ^ 31 → skip_atoi 0 (backwards (plain false 10 n)) ≡ (n, [])
unfolding plain skip_atoi backwards
reads n h = elim (Bool-cases (n == 0)) [
  | inl z ↦ let e : 0 ≡ n = ground arith in rw z (ap (λ k. (k, [])) e)
  | inr z ↦
      let ds = digits_of 64 10 n in
      rw z (
        subst (λ l. skip_atoi 0 l ≡ (n, [])) (append-nil (backwards (map (digit false) ds)))
          (skip_atoi-backwards false 0 ds [] (digits_of-small 64 n)
            ∙ ap (λ k. (k, [])) (omega (arith, value-digits_of 64 n (omega arith)))))
]

-- What number prints of an `int` that is not negative, in base 10 without flags, width and precision,
-- skip_atoi reads back.
pub skip_atoi-number :
    (n : ℕ)
    → n < 2 ^ 31
    → (out : List ℕ) × (number n 10 (negsuc 0) (negsuc 0) 0 ≡ some out)
      × (skip_atoi 0 out ≡ (n, []))
skip_atoi-number n h = (
  backwards (plain false 10 n),
  bare-eq n 10 (omega arith) (omega arith) (omega arith),
  reads n h,
)
