-- ===== src/Format/Total.antt =====
-- vsprintf of kernel/debug/printk.c returns.
use Prim.Native.Nat.{bit_or}
use s_os.Base.{
  ℕ, zero, suc, ◌*◌, ◌%◌, ◌^◌, ◌≡◌, ◌≤◌, refl, Bool, true, false, Option, some, List, [], ◌∷◌, ◌++◌,
  length, replicate, ◌==◌, ◌||◌, if◌then◌else◌, arith, Bool-cases, inl, inr,
}
use s_os.Base.Int.{ℤ, pos, negsuc, pos_part, ◌-ℤ◌}
use s_os.ListHeap.Chain.{has}
use s_os.Printk.{zeropad, sign, small, left, has_flag}
use s_os.Printk.Number.{number-length, magnitude-fits}
use s_os.Format.{
  Arg, word, text, Output, next_word, parse_flags, parse_qualifier, print_number, print_char,
  print_pointer, write_length, convert, finish, directive, format, vsprintf,
}
use s_os.Format.Parse.{
  HasWords, HasWords-weaken, IsRest, IsRest-trans, parse_flags-IsRest, parse_qualifier-IsRest,
  parse_width-total, parse_precision-total,
}

-- A step succeeds and leaves `n` words.
abbrev Fine : ℕ → Option Output → Type 0
Fine n x = (o : Output) × (x ≡ some o) × HasWords n o.args

if-Fine :
    (n : ℕ) (b : Bool) (x y : Option Output) → Fine n x → Fine n y → Fine n (if b then x else y)
if-Fine n true x y p q = p
if-Fine n false x y p q = q

next_word-total :
    (n : ℕ) (args : List Arg)
    → HasWords (suc n) args
    → (w : ℕ) × (args1 : List Arg) × (next_word args ≡ some (w, args1)) × HasWords n args1
unfolding next_word
next_word-total n [] h = absurd h
next_word-total n (word w ∷ args) h = (w, args, refl, h)
next_word-total n (text s ∷ args) h = absurd h

module _ (n : ℕ) (o : Output) (h : HasWords (suc n) o.args) where
  print_number-Fine :
      (long : Bool) (base : ℕ) (width precision : ℤ) (flags : ℕ)
      → 3 ≤ base
      → base ≤ 36
      → Fine n (print_number o long base width precision flags)
  unfolding print_number
  print_number-Fine long base width precision flags lo hi =
      let (w, args1, e, k) = next_word-total n o.args h in
      let v = if long then w % 2 ^ 64 else w % 2 ^ 32 in
      let (out, bare, e1, _, _) =
        number-length v base width precision flags (omega arith) hi
          (magnitude-fits flags v base lo (ground arith)) in
      (record o { str = o.str ++ out; args = args1 }, rw (e, e1, print_number) refl, k)

  print_char-Fine : (width : ℤ) (flags : ℕ) → Fine n (print_char o width flags)
  unfolding print_char
  print_char-Fine width flags =
      let (w, args1, e, k) = next_word-total n o.args h in
      let gap = replicate (pos_part (width -ℤ pos 1)) 32 in
      let c = w % 256 in
      (
        record o {
          str = o.str ++ (if has_flag flags left then c ∷ gap else gap ++ (c ∷ []));
          args = args1;
        },
        rw (e, print_char) refl,
        k,
      )

  print_pointer-Fine :
      (width precision : ℤ) (flags : ℕ) → Fine n (print_pointer o width precision flags)
  unfolding print_pointer
  print_pointer-Fine (pos m) precision flags =
      print_number-Fine true 16 (pos m) precision flags (omega arith) (omega arith)
  print_pointer-Fine (negsuc zero) precision flags =
      print_number-Fine true 16 (pos 16) precision (bit_or flags zeropad) (omega arith)
        (omega arith)
  print_pointer-Fine (negsuc (suc m)) precision flags =
      print_number-Fine true 16 (negsuc (suc m)) precision flags (omega arith) (omega arith)

  write_length-Fine : (long : Bool) → Fine n (write_length o long)
  unfolding write_length
  write_length-Fine long =
      let (w, args1, e, k) = next_word-total n o.args h in
      (
        record o {
          writes = (w, length o.str % 2 ^ (if long then 64 else 32)) ∷ o.writes;
          args = args1;
        },
        rw (e, write_length) refl,
        k,
      )

  convert-Fine :
      (long : Bool) (c : ℕ) (width precision : ℤ) (flags : ℕ)
      → (c == 115) ≡ false
      → Fine n (convert o long c width precision flags)
  unfolding convert
  convert-Fine long c width precision flags no_text =
      let num = λ (base f : ℕ) (lo : 3 ≤ base) (hi : base ≤ 36).
        print_number-Fine long base width precision f lo hi in
      let kept = HasWords-weaken n o.args h in
      rw no_text (
        if-Fine n (c == 99) _ _ (print_char-Fine width flags) (
          if-Fine n (c == 111) _ _ (num 8 flags (omega arith) (omega arith)) (
            if-Fine n (c == 112) _ _ (print_pointer-Fine width precision flags) (
              if-Fine n (c == 120) _ _ (num 16 (bit_or flags small) (omega arith) (omega arith)) (
                if-Fine n (c == 88) _ _ (num 16 flags (omega arith) (omega arith)) (
                  if-Fine n ((c == 100) || (c == 105)) _ _
                    (num 10 (bit_or flags sign) (omega arith) (omega arith))
                    (if-Fine n (c == 117) _ _ (num 10 flags (omega arith) (omega arith)) (
                      if-Fine n (c == 110) _ _ (write_length-Fine long)
                        (if-Fine n (c == 37) _ _ (_, refl, kept) (_, refl, kept))))))))))

finish-total :
    (n : ℕ) (long : Bool) (s : List ℕ) (width precision : ℤ) (flags : ℕ) (o : Output)
    → HasWords (suc n) o.args
    → has 115 s ≡ false
    → (rest : List ℕ) × (o1 : Output) × (finish long s width precision flags o ≡ some (rest, o1))
      × HasWords n o1.args
      × IsRest rest s
unfolding finish
finish-total n long [] width precision flags o h no_text =
    ([], _, refl, HasWords-weaken n o.args h, record { short = omega arith; plain = λ k. k })
finish-total n long (c ∷ s) width precision flags o h no_text =
    let (o1, e, k) = convert-Fine n o h long c width precision flags (ground arith) in
    (s, o1, rw (e, finish) refl, k, record { short = omega arith; plain = λ q. ground arith })

-- A directive takes three words at most: for the width, the precision and the value.
directive-total :
    (n : ℕ) (s : List ℕ) (o : Output)
    → HasWords (suc (suc (suc n))) o.args
    → has 115 s ≡ false
    → (rest : List ℕ) × (o1 : Output) × (directive s o ≡ some (rest, o1))
      × HasWords n o1.args
      × IsRest rest s
unfolding directive
directive-total n s o h no_text =
    let flags = parse_flags 0 s in
    let r1 = parse_flags-IsRest 0 s in
    let (w, flags1, s2, args1, e2, k2) = parse_width-total (suc (suc n)) flags.0 flags.1 o.args h in
    let (p, s3, args2, e3, k3) = parse_precision-total (suc n) s2 args1 k2.words in
    let r4 = parse_qualifier-IsRest s3 in
    let r =
      IsRest-trans (parse_qualifier s3).1 s3 s r4
        (IsRest-trans s3 s2 s k3.rest_of (IsRest-trans s2 flags.1 s k2.rest_of r1)) in
    let (rest, o1, e5, k5, r5) =
      finish-total n (parse_qualifier s3).0 (parse_qualifier s3).1 w p flags1
        (record o { args = args2 }) k3.words (r.plain no_text) in
    (rest, o1, rw (e2, e3, directive) e5, k5, IsRest-trans rest (parse_qualifier s3).1 s r5 r)

HasWords-le : (m n : ℕ) (args : List Arg) → m ≤ n → HasWords n args → HasWords m args
HasWords-le zero n args h k = tt
HasWords-le (suc m) zero args h k = absurd (omega arith)
HasWords-le (suc m) (suc n) [] h k = k
HasWords-le (suc m) (suc n) (word w ∷ args) h k = HasWords-le m n args (omega arith) k
HasWords-le (suc m) (suc n) (text s ∷ args) h k = k

-- Each step takes a character of the format at least, so that its length is fuel enough.
format-total :
    (f : ℕ) (s : List ℕ) (o : Output)
    → length s ≤ f
    → HasWords (3 * length s) o.args
    → has 115 s ≡ false
    → (o1 : Output) × (format f s o ≡ some o1)
unfolding format
format-total f [] o fuel h no_text = (o, format-end f o)
  where
    format-end : (f : ℕ) (o : Output) → format f [] o ≡ some o
    format-end zero o = refl
    format-end (suc f) o = refl
format-total zero (c ∷ s) o fuel h no_text = absurd (omega arith)
format-total (suc f) (c ∷ s) o fuel h no_text =
    let h3 : HasWords (suc (suc (suc (3 * length s)))) o.args =
      HasWords-le (suc (suc (suc (3 * length s)))) (3 * length (c ∷ s)) o.args (omega arith) h in
    elim (Bool-cases (c == 37)) [
      | inl mark ↦
          let (rest, o1, e, k, r) = directive-total (3 * length s) s o h3 (ground arith) in
          let (o2, e2) =
            format-total f rest o1 (omega (arith, r.short))
              (HasWords-le (3 * length rest) (3 * length s) o1.args (omega (arith, r.short)) k)
              (r.plain (ground arith)) in
          (o2, rw (mark, e, format) e2)
      | inr plain ↦
          let (o2, e2) =
            format-total f s (record o { str = o.str ++ (c ∷ []) }) (omega arith)
              (HasWords-le (3 * length s) (3 * length (c ∷ s)) o.args (omega arith) h)
              (ground arith) in
          (o2, rw (plain, format) e2)
    ]

-- For every format without an s, and three words of arguments for each of its characters, vsprintf returns:
-- the loop over the format ends, and no argument is missing.
pub vsprintf-total :
    (fmt : List ℕ) (args : List Arg)
    → has 115 fmt ≡ false
    → HasWords (3 * length fmt) args
    → (o : Output) × (vsprintf fmt args ≡ some o)
unfolding vsprintf
vsprintf-total fmt args no_text h =
    format-total (length fmt) fmt (record { str = []; writes = []; args = args }) (omega arith) h
      no_text
