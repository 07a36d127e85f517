-- ===== src/Printk.antt =====
-- Formatting and parsing of numbers, kernel/debug/printk.c, with kernel/include/printk.h.
--
-- Characters are their codes. A `long` is its 64 bits as a number, so that what is at least 2 ^ 63 is
-- negative; an `int` is an integer that does not overflow.
pub mod Number
pub mod Value
mod Tests
use Prim.Native.Nat.{bit_and}
use s_os.Base.{
  ℕ, zero, suc, ◌+◌, ◌-◌, ◌*◌, ◌/◌, ◌%◌, ◌^◌, Bool, true, false, Option, none, some, List, [], ◌∷◌,
  ◌++◌, map, length, replicate, ◌==◌, leb, ltb, ◌&&◌, ◌||◌, not, if◌then◌else◌,
}
use s_os.Base.Int.{ℤ, pos, negsuc, pos_part, ◌-ℤ◌}

abbrev pub zeropad : ℕ
zeropad = 1

abbrev pub sign : ℕ
sign = 2

abbrev pub plus : ℕ
plus = 4

abbrev pub space : ℕ
space = 8

abbrev pub left : ℕ
left = 16

abbrev pub special : ℕ
special = 32

abbrev pub small : ℕ
small = 64

abbrev pub is_digit : ℕ → Bool
is_digit c = leb 48 c && leb c 57

-- The number that is read so far is `i`; the result is the number and the rest of the string.
unfoldable pub skip_atoi : ℕ → List ℕ → ℕ × List ℕ
skip_atoi i [] = (i, [])
skip_atoi i (c ∷ s) =
    let rest = skip_atoi (10 * i + (c - 48)) s in if is_digit c then rest else (i, c ∷ s)

-- `digits[k]`, with small letters or capitals
unfoldable pub digit : Bool → ℕ → ℕ
digit lower k = if ltb k 10 then 48 + k else if lower then 87 + k else 55 + k

-- The loop with `do_div`, lowest digit first. A 64-bit number has at most 64 digits.
unfoldable pub digits_of : ℕ → ℕ → ℕ → List ℕ
digits_of zero base num = []
digits_of (suc f) base num =
    let rest = digits_of f base (num / base) in if num == 0 then [] else num % base ∷ rest

-- `while (i-- > 0) *str++ = tmp[i]`
unfoldable pub backwards : List ℕ → List ℕ
backwards [] = []
backwards (x ∷ xs) = backwards xs ++ (x ∷ [])

-- `while (size-- > 0) *str++ = c`: what it prints, and the size that it leaves
abbrev pub pad : ℕ → ℤ → List ℕ
pad c size = replicate (pos_part size) c

unfoldable pub after_pad : ℤ → ℤ
after_pad (pos zero) = negsuc 0
after_pad (pos (suc n)) = negsuc 0
after_pad (negsuc n) = negsuc (suc n)

unfoldable pub has_flag : ℕ → ℕ → Bool
has_flag type flag = not (bit_and type flag == 0)

-- the character of the sign, or 0
unfoldable pub sign_char : ℕ → Bool → ℕ
sign_char type negative =
    if negative
    then 45
    else if has_flag type plus
    then 43
    else if has_flag type space
    then 32
    else 0

-- what SPECIAL prints in front of the digits
unfoldable pub prefix : ℕ → ℕ → List ℕ
prefix type base =
    if has_flag type special
    then (if base == 8
        then 48 ∷ []
        else if base == 16
        then 48 ∷ (digit (has_flag type small) 33 ∷ [])
        else [])
    else []

-- What is left of `size` for the padding; `n` is the number of characters of the digits.
unfoldable pub room : ℤ → ℕ → ℕ → ℕ → ℤ
room size s p n =
    let size1 = if s == 0 then size else size -ℤ pos 1 in
    let size2 = size1 -ℤ pos p in size2 -ℤ pos n

-- What is printed. `zero` tells whether the padding is with zeros, `is_left` whether it comes behind.
unfoldable pub layout : Bool → Bool → ℤ → ℕ → List ℕ → ℕ → List ℕ → List ℕ
layout zeros is_left size s p n tmp =
    let front = not (zeros || is_left) in
    let size1 = if front then after_pad size else size in
    let size2 = if is_left then size1 else after_pad size1 in
    (if front then pad 32 size else [])
    ++ ((if s == 0 then [] else s ∷ [])
        ++ (p
            ++ ((if is_left then [] else pad (if zeros then 48 else 32) size1)
                ++ (replicate (n - length tmp) 48 ++ (backwards tmp ++ pad 32 size2)))))

-- The characters that number appends to `str`; `none` where it returns 0 for the base, and where the digits
-- do not fit in the 50 characters of `tmp`, which C leaves undefined.
unfoldable pub number : ℕ → ℕ → ℤ → ℤ → ℕ → Option (List ℕ)
number num base size precision type =
    let is_left = has_flag type left in
    let zeros = has_flag type zeropad && not is_left in
    let negative = has_flag type sign && leb (2 ^ 63) num in
    let value = if negative then 2 ^ 64 - num else num in
    let s = sign_char type negative in
    let p = prefix type base in
    let tmp =
      if value == 0 then 48 ∷ [] else map (digit (has_flag type small)) (digits_of 64 base value) in
    let n = if ltb (pos_part precision) (length tmp) then length tmp else pos_part precision in
    if ltb base 2 || ltb 36 base
    then none
    else if ltb 50 (length tmp)
    then none
    else some (layout zeros is_left (room size s (length p) n) s p n tmp)
