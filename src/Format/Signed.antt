-- ===== src/Format/Signed.antt =====
-- What vsprintf of kernel/debug/printk.c prints for text, and for a signed `int`.
use s_os.Base.{
  ℕ, ◌%◌, ◌^◌, ◌≡◌, refl, ◌∙◌, ap, false, some, List, [], ◌∷◌, ◌++◌, length, ◌==◌, leb, arith,
}
use s_os.Base.Int.{negsuc}
use mathlib.Core.List.{append_assoc, append-nil}
use s_os.ListHeap.Chain.{has}
use s_os.Format.{
  Arg, word, vsprintf, format, directive, finish, parse_flags, parse_width, parse_precision,
  parse_qualifier, convert, print_number, next_word,
}
use s_os.Printk.{number, has_flag, sign_char, prefix, backwards}
use s_os.Printk.Number.{plain, bare-eq}

signed :
    (w : ℕ)
    → number (w % 2 ^ 32) 10 (negsuc 0) (negsuc 0) 2
      ≡ number (w % 2 ^ 32) 10 (negsuc 0) (negsuc 0) 0
unfolding number has_flag sign_char prefix
signed w = let h : leb (2 ^ 63) (w % 2 ^ 32) ≡ false = ground arith in rw (number, h) refl

-- `%d` prints the low 32 bits of its argument as a number without a sign: what it prints is what number
-- prints of them without the flag for signed numbers.
pub vsprintf-signed :
    (w : ℕ)
    → (out : List ℕ) × (vsprintf (37 ∷ (100 ∷ [])) (word w ∷ [])
        ≡ some (record { str = out; writes = []; args = [] }))
      × (number (w % 2 ^ 32) 10 (negsuc 0) (negsuc 0) 0 ≡ some out)
unfolding vsprintf format directive finish parse_flags parse_width parse_precision parse_qualifier
    convert print_number next_word
vsprintf-signed w =
    let bare = bare-eq (w % 2 ^ 32) 10 (omega arith) (omega arith) (omega arith) in
    (backwards (plain false 10 (w % 2 ^ 32)), rw (signed w, bare) refl, bare)

format-plain :
    (s t : List ℕ) (args : List Arg)
    → has 37 s ≡ false
    → format (length s) s (record { str = t; writes = []; args = args })
      ≡ some (record { str = t ++ s; writes = []; args = args })
unfolding format
format-plain [] t args h = rw (append-nil t) refl
format-plain (c ∷ s) t args h =
    let no : (c == 37) ≡ false = ground arith in
    rw no (
      format-plain s (t ++ (c ∷ [])) args (ground arith)
      ∙ ap (λ l. some (record { str = l; writes = []; args = args })) (append_assoc t (c ∷ []) s))

-- A format without `%` is printed as it is, and no argument is used.
vsprintf-plain :
    (fmt : List ℕ) (args : List Arg)
    → has 37 fmt ≡ false
    → vsprintf fmt args ≡ some (record { str = fmt; writes = []; args = args })
unfolding vsprintf
vsprintf-plain fmt args h = format-plain fmt [] args h
