-- ===== src/Format.antt =====
-- vsprintf of kernel/debug/printk.c.
--
-- A string is its characters without the 0 at its end. An argument is a word of 64 bits or a string; what
-- `%n` writes through a pointer is kept in `writes`, last one first.
pub mod Parse
pub mod Signed
pub mod Total
mod Tests
use Prim.Native.Nat.{bit_or}
use s_os.Base.{
  ℕ, zero, suc, ◌+◌, ◌-◌, ◌*◌, ◌/◌, ◌%◌, ◌^◌, Bool, true, false, Option, none, some, List, [], ◌∷◌,
  ◌++◌, length, replicate, ◌==◌, leb, ltb, ◌||◌, if◌then◌else◌,
}
use s_os.Base.Int.{ℤ, pos, negsuc, pos_part, neg_part, ◌-ℤ◌}
use s_os.Base.Monad.{◌>>=◌}
use s_os.Printk.{
  zeropad, sign, plus, space, left, special, small, is_digit, skip_atoi, has_flag, number,
}

pub data Arg : Type 0 where
  word : ℕ → Arg
  text : List ℕ → Arg

pub record Output : Type 0 where
  pub str : List ℕ
  pub writes : List (ℕ × ℕ)
  pub args : List Arg

-- `none`: the arguments do not fit the format, which C leaves undefined.
unfoldable pub next_word : List Arg → Option (ℕ × List Arg)
next_word [] = none
next_word (word w ∷ args) = some (w, args)
next_word (text s ∷ args) = none

unfoldable pub next_text : List Arg → Option (List ℕ × List Arg)
next_text [] = none
next_text (word w ∷ args) = none
next_text (text s ∷ args) = some (s, args)

-- a word as an `int`
unfoldable pub to_int : ℕ → ℤ
to_int w = if ltb (w % 2 ^ 32) (2 ^ 31) then pos (w % 2 ^ 32) else negsuc (2 ^ 32 - 1 - w % 2 ^ 32)

-- `repeat:` and the `switch` behind it
unfoldable pub parse_flags : ℕ → List ℕ → ℕ × List ℕ
parse_flags flags [] = (flags, [])
parse_flags flags (c ∷ s) =
    if c == 45
    then parse_flags (bit_or flags left) s
    else if c == 43
    then parse_flags (bit_or flags plus) s
    else if c == 32
    then parse_flags (bit_or flags space) s
    else if c == 35
    then parse_flags (bit_or flags special) s
    else if c == 48
    then parse_flags (bit_or flags zeropad) s
    else (flags, c ∷ s)

-- A width that is given as a negative argument sets LEFT.
unfoldable pub width_arg : ℕ → ℤ → ℤ × ℕ
width_arg flags (pos n) = (pos n, flags)
width_arg flags (negsuc n) = (pos (suc n), bit_or flags left)

unfoldable pub parse_width : ℕ → List ℕ → List Arg → Option (ℤ × ℕ × List ℕ × List Arg)
parse_width flags [] args = some (negsuc 0, flags, [], args)
parse_width flags (c ∷ s) args =
    let (n, rest) = skip_atoi 0 (c ∷ s) in
    let star : Option (ℤ × ℕ × List ℕ × List Arg) = (do
      (w, args1) ← next_word args
      (let (width, flags1) = width_arg flags (to_int w) in some (width, flags1, s, args1))) in
    if is_digit c
    then some (pos n, flags, rest, args)
    else if c == 42
    then star
    else some (negsuc 0, flags, c ∷ s, args)

-- the precision behind the point
unfoldable pub precision_after : List ℕ → List Arg → Option (ℤ × List ℕ × List Arg)
precision_after [] args = some (pos 0, [], args)
precision_after (c ∷ s) args =
    let (n, rest) = skip_atoi 0 (c ∷ s) in
    let star : Option (ℤ × List ℕ × List Arg) = (do
      (w, args1) ← next_word args
      some (pos (pos_part (to_int w)), s, args1)) in
    if is_digit c
    then some (pos n, rest, args)
    else if c == 42
    then star
    else some (pos 0, c ∷ s, args)

unfoldable pub parse_precision : List ℕ → List Arg → Option (ℤ × List ℕ × List Arg)
parse_precision [] args = some (negsuc 0, [], args)
parse_precision (c ∷ s) args =
    let rest = precision_after s args in if c == 46 then rest else some (negsuc 0, c ∷ s, args)

-- Is the qualifier `l`? The other ones have no effect.
unfoldable pub parse_qualifier : List ℕ → Bool × List ℕ
parse_qualifier [] = (false, [])
parse_qualifier (c ∷ s) =
    if (c == 104) || (c == 108) || (c == 76) || (c == 90) then (c == 108, s) else (false, c ∷ s)

unfoldable pub print_number : Output → Bool → ℕ → ℤ → ℤ → ℕ → Option Output
print_number o long base width precision flags = do
  (w, args1) ← next_word o.args
  digits ← number (if long then w % 2 ^ 64 else w % 2 ^ 32) base width precision flags
  some (record o { str = o.str ++ digits; args = args1 })

unfoldable pub print_char : Output → ℤ → ℕ → Option Output
print_char o width flags = do
  (w, args1) ← next_word o.args
  (let gap = replicate (pos_part (width -ℤ pos 1)) 32 in
      let c = w % 256 in
      some (record o {
        str = o.str ++ (if has_flag flags left then c ∷ gap else gap ++ (c ∷ []));
        args = args1;
      }))

-- the first `n` characters
abbrev pub take : ℕ → List ℕ → List ℕ
take zero s = []
take (suc n) [] = []
take (suc n) (c ∷ s) = c ∷ take n s

-- the length that the precision leaves of a string
unfoldable pub cut : ℤ → ℕ → ℕ
cut (pos p) len = if ltb p len then p else len
cut (negsuc n) len = len

unfoldable pub print_text : Output → ℤ → ℤ → ℕ → Option Output
print_text o width precision flags = do
  (s, args1) ← next_text o.args
  (let len = cut precision (length s) in
      let gap = replicate (pos_part (width -ℤ pos len)) 32 in
      some (record o {
        str = o.str ++ (if has_flag flags left then take len s ++ gap else gap ++ take len s);
        args = args1;
      }))

-- `%p`: 16 digits with zeros, if no width is given
unfoldable pub print_pointer : Output → ℤ → ℤ → ℕ → Option Output
print_pointer o (negsuc zero) precision flags =
    print_number o true 16 (pos 16) precision (bit_or flags zeropad)
print_pointer o width precision flags = print_number o true 16 width precision flags

unfoldable pub write_length : Output → Bool → Option Output
write_length o long = do
  (p, args1) ← next_word o.args
  some (record o {
    writes = (p, length o.str % 2 ^ (if long then 64 else 32)) ∷ o.writes;
    args = args1;
  })

-- the `switch` on the conversion
unfoldable pub convert : Output → Bool → ℕ → ℤ → ℤ → ℕ → Option Output
convert o long c width precision flags =
    if c == 99
    then print_char o width flags
    else if c == 115
    then print_text o width precision flags
    else if c == 111
    then print_number o long 8 width precision flags
    else if c == 112
    then print_pointer o width precision flags
    else if c == 120
    then print_number o long 16 width precision (bit_or flags small)
    else if c == 88
    then print_number o long 16 width precision flags
    else if (c == 100) || (c == 105)
    then print_number o long 10 width precision (bit_or flags sign)
    else if c == 117
    then print_number o long 10 width precision flags
    else if c == 110
    then write_length o long
    else if c == 37
    then some (record o { str = o.str ++ (37 ∷ []) })
    else some (record o { str = o.str ++ (37 ∷ (c ∷ [])) })

-- A directive behind its qualifier. At the end of the format only the `%` is printed.
unfoldable pub finish : Bool → List ℕ → ℤ → ℤ → ℕ → Output → Option (List ℕ × Output)
finish long [] width precision flags o = some ([], record o { str = o.str ++ (37 ∷ []) })
finish long (c ∷ s) width precision flags o = do
  o1 ← convert o long c width precision flags
  some (s, o1)

-- one directive, from behind its `%`
unfoldable pub directive : List ℕ → Output → Option (List ℕ × Output)
directive fmt o =
    let (flags, s1) = parse_flags 0 fmt in
    do
      (width, flags1, s2, args1) ← parse_width flags s1 o.args
      (precision, s3, args2) ← parse_precision s2 args1
      (let (long, s4) = parse_qualifier s3 in
          finish long s4 width precision flags1 (record o { args = args2 }))

-- The loop over the format. Each step takes a character at least, so that the length of the format is
-- fuel enough.
unfoldable pub format : ℕ → List ℕ → Output → Option Output
format fuel [] o = some o
format zero (c ∷ s) o = none
format (suc f) (c ∷ s) o =
    let plain = format f s (record o { str = o.str ++ (c ∷ []) }) in
    let special : Option Output = (do (rest, o1) ← directive s o; format f rest o1) in
    if c == 37 then special else plain

unfoldable pub vsprintf : List ℕ → List Arg → Option Output
vsprintf fmt args = format (length fmt) fmt (record { str = []; writes = []; args = args })
