-- ===== src/Printk/Number.antt =====
-- The width and the value of what number of kernel/debug/printk.c prints.
use mathlib.Core.List.{append-nil}
use native.Mathlib.Nat.{pow-zero, pow-suc, div-lt_iff_lt-mul, pow-le-pow_left}
use s_os.Base.{
  ◌<◌, ◌*◌, ◌/◌, subst, Bool-cases, inl, inr, ℕ, zero, suc, ◌+◌, ◌-◌, ◌^◌, ◌≡◌, ◌≤◌, refl, ◌∙◌, ap,
  Bool, true, false, some, List, [], ◌∷◌, ◌++◌, map, length, length-append, length-replicate,
  replicate, ◌==◌, leb, ltb, ◌&&◌, not, if◌then◌else◌, arith,
}
use s_os.Base.Int.{ℤ, pos, negsuc, pos_part}
use s_os.Printk.{
  digit, digits_of, backwards, pad, after_pad, layout, number, room, has_flag, sign_char, prefix,
  left, sign, small, zeropad,
}

length-backwards : (xs : List ℕ) → length (backwards xs) ≡ length xs
unfolding backwards
length-backwards [] = refl
length-backwards (x ∷ xs) =
    omega (arith, length-append (backwards xs) (x ∷ []), length-backwards xs)

after_pad-empty : (z : ℤ) (c : ℕ) → pad c (after_pad z) ≡ []
unfolding after_pad
after_pad-empty (pos zero) c = refl
after_pad-empty (pos (suc n)) c = refl
after_pad-empty (negsuc n) c = refl

length-pad : (z : ℤ) (c : ℕ) → length (pad c z) ≡ pos_part z
length-pad z c = length-replicate (pos_part z) c

-- five parts
length-parts :
    (a b c d e : List ℕ)
    → length (a ++ (b ++ (c ++ (d ++ e)))) ≡ length a + length b + length c + length d + length e
length-parts a b c d e = omega (
  arith,
  length-append a (b ++ (c ++ (d ++ e))),
  length-append b (c ++ (d ++ e)),
  length-append c (d ++ e),
  length-append d e,
)

length-digits :
    (n : ℕ) (tmp last : List ℕ)
    → length tmp ≤ n
    → length (replicate (n - length tmp) 48 ++ (backwards tmp ++ last)) ≡ n + length last
length-digits n tmp last h = omega (
  arith,
  length-append (replicate (n - length tmp) 48) (backwards tmp ++ last),
  length-append (backwards tmp) last,
  length-backwards tmp,
  length-replicate {A = ℕ} (n - length tmp) 48,
)

length-sign : (s : ℕ) → length (if s == 0 then [] else s ∷ []) ≡ (if s == 0 then 0 else 1)
length-sign s = ground arith

-- Whatever the side and the character, the padding fills the room once.
length-layout :
    (zeros is_left : Bool) (size : ℤ) (s : ℕ) (p : List ℕ) (n : ℕ) (tmp : List ℕ)
    → length tmp ≤ n
    → length (layout zeros is_left size s p n tmp)
      ≡ pos_part size + (if s == 0 then 0 else 1) + length p + n
unfolding layout
length-layout true true size s p n tmp h = omega (
  arith,
  length-parts [] (if s == 0 then [] else s ∷ []) p []
      (replicate (n - length tmp) 48 ++ (backwards tmp ++ pad 32 size)),
  length-sign s,
  length-digits n tmp (pad 32 size) h,
  length-pad size 32,
)
length-layout true false size s p n tmp h =
    rw (after_pad-empty size 32, layout)
      (omega (
        arith,
        length-parts [] (if s == 0 then [] else s ∷ []) p (pad 48 size)
            (replicate (n - length tmp) 48 ++ (backwards tmp ++ [])),
        length-sign s,
        length-digits n tmp [] h,
        length-pad size 48,
      ))
length-layout false true size s p n tmp h = omega (
  arith,
  length-parts [] (if s == 0 then [] else s ∷ []) p []
      (replicate (n - length tmp) 48 ++ (backwards tmp ++ pad 32 size)),
  length-sign s,
  length-digits n tmp (pad 32 size) h,
  length-pad size 32,
)
length-layout false false size s p n tmp h =
    rw (after_pad-empty size 32, after_pad-empty (after_pad size) 32, layout)
      (omega (
        arith,
        length-parts (pad 32 size) (if s == 0 then [] else s ∷ []) p []
            (replicate (n - length tmp) 48 ++ (backwards tmp ++ [])),
        length-sign s,
        length-digits n tmp [] h,
        length-pad size 32,
      ))

abbrev pub larger : ℕ → ℕ → ℕ
larger a b = if ltb a b then b else a

pos_part-room :
    (size : ℤ) (s p n : ℕ)
    → pos_part (room size s p n) ≡ pos_part size - ((if s == 0 then 0 else 1) + p + n)
unfolding room
pos_part-room (pos z) s p n = ground arith
pos_part-room (negsuc z) s p n = ground arith

length-map : (f : ℕ → ℕ) (xs : List ℕ) → length (map f xs) ≡ length xs
length-map f [] = refl
length-map f (x ∷ xs) = ap suc (length-map f xs)

-- the digits of a value, without padding
unfoldable pub plain : Bool → ℕ → ℕ → List ℕ
plain lower base value = if value == 0 then 48 ∷ [] else map (digit lower) (digits_of 64 base value)

length-plain :
    (a b : Bool) (base value : ℕ) → length (plain a base value) ≡ length (plain b base value)
unfolding plain
length-plain a b base value = ground (
  arith,
  length-map (digit a) (digits_of 64 base value),
  length-map (digit b) (digits_of 64 base value),
)

-- the value whose digits are printed
abbrev pub magnitude : ℕ → ℕ → ℕ
magnitude type num = if has_flag type sign && leb (2 ^ 63) num then 2 ^ 64 - num else num

-- A value below the k-th power of the base has k digits at most.
digits_of-length :
    (f k base value : ℕ) → 2 ≤ base → value < base ^ k → length (digits_of f base value) ≤ k
unfolding digits_of
digits_of-length zero k base value lo h = omega arith
digits_of-length (suc f) zero base value lo h =
    let z : (value == 0) ≡ true = ground (arith, pow-zero base) in rw z (omega arith)
digits_of-length (suc f) (suc k) base value lo h =
    let bound : value < base ^ k * base = subst (λ p. value < p) (pow-suc base k) h in
    let positive : 0 < base = omega arith in
    let below : value / base < base ^ k =
      (div-lt_iff_lt-mul {k = base} {x = value} {y = base ^ k} positive).1 bound in
    elim (Bool-cases (value == 0)) [
      | inl z ↦ rw z (omega arith)
      | inr nz ↦ rw nz (omega (arith, digits_of-length f k base (value / base) lo below))
    ]

-- from base 3 on every value of 64 bits fits in the buffer
fits_buffer : (base value : ℕ) → 3 ≤ base → value < 2 ^ 64 → value < base ^ 50
fits_buffer base value lo h = omega (arith, pow-le-pow_left lo 50)

-- The digits of a value of 50 digits at most fit in the buffer.
plain-fits :
    (lower : Bool) (base value : ℕ)
    → 2 ≤ base
    → value < base ^ 50
    → ltb 50 (length (plain lower base value)) ≡ false
unfolding plain
plain-fits lower base value lo h = ground (
  arith,
  digits_of-length 64 50 base value lo h,
  length-map (digit lower) (digits_of 64 base value),
)

-- A number of 64 bits, from base 3 on, has a value that fits in the buffer.
pub magnitude-fits : (type num base : ℕ) → 3 ≤ base → num < 2 ^ 64 → magnitude type num < base ^ 50
magnitude-fits type num base lo h = fits_buffer base (magnitude type num) lo (ground arith)

number-eq :
    (num base : ℕ) (size precision : ℤ) (type : ℕ)
    → 2 ≤ base
    → base ≤ 36
    → magnitude type num < base ^ 50
    → let is_left = has_flag type left in
      let s = sign_char type (has_flag type sign && leb (2 ^ 63) num) in
      let p = prefix type base in
      let tmp = plain (has_flag type small) base (magnitude type num) in
      let n = larger (pos_part precision) (length tmp) in
      number num base size precision type
      ≡ some (
          layout
            (has_flag type zeropad && not is_left)
            is_left
            (room size s (length p) n)
            s
            p
            n
            tmp)
unfolding number plain
number-eq num base size precision type lo hi short =
    let a : ltb base 2 ≡ false = ground arith in
    let b : ltb 36 base ≡ false = ground arith in
    let c = plain-fits (has_flag type small) base (magnitude type num) lo short in
    rw (number, a, b, c) refl

layout-bare :
    (z : ℤ) (n : ℕ) (tmp : List ℕ)
    → pos_part z ≡ 0
    → n - length tmp ≡ 0
    → layout false false z 0 [] n tmp ≡ backwards tmp
unfolding layout
layout-bare z n tmp none_left exact =
    rw (layout, none_left, after_pad-empty z 32, after_pad-empty (after_pad z) 32, exact)
      (append-nil (backwards tmp))

pub bare-eq :
    (value base : ℕ)
    → 2 ≤ base
    → base ≤ 36
    → value < base ^ 50
    → number value base (negsuc 0) (negsuc 0) 0 ≡ some (backwards (plain false base value))
unfolding has_flag sign_char prefix
bare-eq value base lo hi short =
    let tmp = plain false base value in
    let n = larger 0 (length tmp) in
    number-eq value base (negsuc 0) (negsuc 0) 0 lo hi short
    ∙ ap some (
        layout-bare (room (negsuc 0) 0 0 n) n tmp (omega (arith, pos_part-room (negsuc 0) 0 0 n))
          (ground arith))

-- For the bases 2 to 36 and a magnitude of 50 digits at most in the base, which every value of 64 bits has
-- from base 3 on, number succeeds, and what it prints is as wide as the larger of the width that is asked
-- for and of what it has to print: the sign, the mark of the base, and the digits, of which there are as
-- many as the precision asks for or the value has, whichever is more. The value is the argument's
-- magnitude if SIGN is set and it is negative; it has as many digits as number prints without flags,
-- width and precision.
pub number-length :
    (num base : ℕ) (size precision : ℤ) (type : ℕ)
    → 2 ≤ base
    → base ≤ 36
    → magnitude type num < base ^ 50
    → (out bare : List ℕ) × (number num base size precision type ≡ some out)
      × (number (magnitude type num) base (negsuc 0) (negsuc 0) 0 ≡ some bare)
      × (length out
          ≡ larger (pos_part size) (
              (if sign_char type (has_flag type sign && leb (2 ^ 63) num) == 0 then 0 else 1)
              + length (prefix type base)
              + larger (pos_part precision) (length bare)))
number-length num base size precision type lo hi short =
    let is_left = has_flag type left in
    let s = sign_char type (has_flag type sign && leb (2 ^ 63) num) in
    let p = prefix type base in
    let v = magnitude type num in
    let tmp = plain (has_flag type small) base v in
    let n = larger (pos_part precision) (length tmp) in
    let zeros = has_flag type zeropad && not is_left in
    let z = room size s (length p) n in
    (
      layout zeros is_left z s p n tmp,
      backwards (plain false base v),
      number-eq num base size precision type lo hi short,
      bare-eq v base lo hi short,
      fits (pos_part size) (if s == 0 then 0 else 1) (length p) (pos_part precision) (length tmp)
          (length (backwards (plain false base v))) (pos_part z)
          (length (layout zeros is_left z s p n tmp))
          (length-backwards (plain false base v) ∙ length-plain false (has_flag type small) base v)
          (pos_part-room size s (length p) n)
          (length-layout zeros is_left z s p n tmp (ground arith)),
    )
  where
    fits :
        (w s p q l m z total : ℕ)
        → m ≡ l
        → z ≡ w - (s + p + larger q l)
        → total ≡ z + s + p + larger q l
        → total ≡ larger w (s + p + larger q m)
    fits w s p q l m z total e1 e2 e3 = ground arith
