-- ===== src/Format/Parse.antt =====
-- What the parts of a directive of vsprintf of kernel/debug/printk.c take of the format and the arguments.
use Prim.Native.Nat.{bit_or}
use s_os.Base.{
  ℕ, zero, suc, ◌+◌, ◌-◌, ◌*◌, ◌≡◌, ◌≤◌, refl, Bool, true, false, some, List, [], ◌∷◌, length, ◌==◌,
  ◌||◌, if◌then◌else◌, arith, Bool-cases, inl, inr,
}
use s_os.Base.Int.{ℤ, pos, negsuc, pos_part}
use s_os.ListHeap.Chain.{has}
use s_os.Printk.{skip_atoi, is_digit, left, plus, space, special, zeropad}
use s_os.Format.{
  Arg, word, text, next_word, to_int, parse_flags, width_arg, parse_width, precision_after,
  parse_precision, parse_qualifier,
}

-- The first `n` arguments are words.
abbrev pub HasWords : ℕ → List Arg → Type 0
HasWords zero args = Unit {0}
HasWords (suc n) [] = ⊥
HasWords (suc n) (word w ∷ args) = HasWords n args
HasWords (suc n) (text s ∷ args) = ⊥

pub HasWords-weaken : (n : ℕ) (args : List Arg) → HasWords (suc n) args → HasWords n args
HasWords-weaken zero args h = tt
HasWords-weaken (suc n) [] h = h
HasWords-weaken (suc n) (word w ∷ args) h = HasWords-weaken n args h
HasWords-weaken (suc n) (text s ∷ args) h = h

-- `t` is no longer than `s`, and has no `%s` if `s` has none: 115 is the letter s.
pub record IsRest (t s : List ℕ) : Type 0 where
  pub short : length t ≤ length s
  pub plain : has 115 s ≡ false → has 115 t ≡ false

pub IsRest-trans : (u t s : List ℕ) → IsRest u t → IsRest t s → IsRest u s
IsRest-trans u t s a b = record {
  short = omega (arith, a.short, b.short);
  plain = λ h. a.plain (b.plain h);
}

pub IsRest-tail : (c : ℕ) (s : List ℕ) → IsRest s (c ∷ s)
IsRest-tail c s = record { short = omega arith; plain = λ h. ground arith }

IsRest-same : (s : List ℕ) → IsRest s s
IsRest-same s = record { short = omega arith; plain = λ h. h }

-- on both branches of a test
if-IsRest :
    (b : Bool) (x y : ℕ × List ℕ) (s : List ℕ)
    → IsRest x.1 s
    → IsRest y.1 s
    → IsRest (if b then x else y).1 s
if-IsRest true x y s a c = a
if-IsRest false x y s a c = c

pub skip_atoi-IsRest : (i : ℕ) (s : List ℕ) → IsRest (skip_atoi i s).1 s
unfolding skip_atoi
skip_atoi-IsRest i [] = IsRest-same []
skip_atoi-IsRest i (c ∷ s) = elim (Bool-cases (is_digit c)) [
  | inl d ↦
      rw d (IsRest-trans _ s (c ∷ s) (skip_atoi-IsRest (10 * i + (c - 48)) s) (IsRest-tail c s))
  | inr d ↦ rw d (IsRest-same (c ∷ s))
]

pub parse_flags-IsRest : (flags : ℕ) (s : List ℕ) → IsRest (parse_flags flags s).1 s
unfolding parse_flags
parse_flags-IsRest flags [] = IsRest-same []
parse_flags-IsRest flags (c ∷ s) =
    let later = λ (f : ℕ).
      IsRest-trans (parse_flags f s).1 s (c ∷ s) (parse_flags-IsRest f s) (IsRest-tail c s) in
    if-IsRest (c == 45) _ _ (c ∷ s) (later (bit_or flags left)) (
      if-IsRest (c == 43) _ _ (c ∷ s) (later (bit_or flags plus)) (
        if-IsRest (c == 32) _ _ (c ∷ s) (later (bit_or flags space)) (
          if-IsRest (c == 35) _ _ (c ∷ s) (later (bit_or flags special)) (
            if-IsRest (c == 48) _ _ (c ∷ s) (later (bit_or flags zeropad)) (IsRest-same (c ∷ s))))))

pub parse_qualifier-IsRest : (s : List ℕ) → IsRest (parse_qualifier s).1 s
unfolding parse_qualifier
parse_qualifier-IsRest [] = IsRest-same []
parse_qualifier-IsRest (c ∷ s) =
    elim (Bool-cases ((c == 104) || (c == 108) || (c == 76) || (c == 90))) [
      | inl q ↦ rw q (IsRest-tail c s)
      | inr q ↦ rw q (IsRest-same (c ∷ s))
    ]

-- A step that may take a word leaves the other ones.
pub record Took (n : ℕ) (rest : List ℕ) (args : List Arg) (s : List ℕ) : Type 0 where
  pub rest_of : IsRest rest s
  pub words : HasWords n args

pub parse_width-total :
    (n flags : ℕ) (s : List ℕ) (args : List Arg)
    → HasWords (suc n) args
    → (w : ℤ) × (flags1 : ℕ) × (rest : List ℕ) × (args1 : List Arg) × (parse_width flags s args
        ≡ some (w, flags1, rest, args1))
      × Took n rest args1 s
unfolding parse_width next_word
parse_width-total n flags s [] h = absurd h
parse_width-total n flags s (text t ∷ args) h = absurd h
parse_width-total n flags [] (word v ∷ args) h = (
  negsuc 0,
  flags,
  [],
  word v ∷ args,
  refl,
  record { rest_of = IsRest-same []; words = HasWords-weaken n (word v ∷ args) h },
)
parse_width-total n flags (c ∷ s) (word v ∷ args) h = elim (Bool-cases (is_digit c)) [
  | inl d ↦ (
    pos (skip_atoi 0 (c ∷ s)).0,
    flags,
    (skip_atoi 0 (c ∷ s)).1,
    word v ∷ args,
    rw (d, parse_width) refl,
    record { rest_of = skip_atoi-IsRest 0 (c ∷ s); words = HasWords-weaken n (word v ∷ args) h },
  )
  | inr d ↦ elim (Bool-cases (c == 42)) [
    | inl star ↦ (
      (width_arg flags (to_int v)).0,
      (width_arg flags (to_int v)).1,
      s,
      args,
      rw (d, star, parse_width) refl,
      record { rest_of = IsRest-tail c s; words = h },
    )
    | inr star ↦ (
      negsuc 0,
      flags,
      c ∷ s,
      word v ∷ args,
      rw (d, star, parse_width) refl,
      record { rest_of = IsRest-same (c ∷ s); words = HasWords-weaken n (word v ∷ args) h },
    )
  ]
]

precision_after-total :
    (n : ℕ) (s : List ℕ) (args : List Arg)
    → HasWords (suc n) args
    → (p : ℤ) × (rest : List ℕ) × (args1 : List Arg) × (precision_after s args
        ≡ some (p, rest, args1))
      × Took n rest args1 s
unfolding precision_after next_word
precision_after-total n s [] h = absurd h
precision_after-total n s (text t ∷ args) h = absurd h
precision_after-total n [] (word v ∷ args) h = (
  pos 0,
  [],
  word v ∷ args,
  refl,
  record { rest_of = IsRest-same []; words = HasWords-weaken n (word v ∷ args) h },
)
precision_after-total n (c ∷ s) (word v ∷ args) h = elim (Bool-cases (is_digit c)) [
  | inl d ↦ (
    pos (skip_atoi 0 (c ∷ s)).0,
    (skip_atoi 0 (c ∷ s)).1,
    word v ∷ args,
    rw (d, precision_after) refl,
    record { rest_of = skip_atoi-IsRest 0 (c ∷ s); words = HasWords-weaken n (word v ∷ args) h },
  )
  | inr d ↦ elim (Bool-cases (c == 42)) [
    | inl star ↦ (
      pos (pos_part (to_int v)),
      s,
      args,
      rw (d, star, precision_after) refl,
      record { rest_of = IsRest-tail c s; words = h },
    )
    | inr star ↦ (
      pos 0,
      c ∷ s,
      word v ∷ args,
      rw (d, star, precision_after) refl,
      record { rest_of = IsRest-same (c ∷ s); words = HasWords-weaken n (word v ∷ args) h },
    )
  ]
]

pub parse_precision-total :
    (n : ℕ) (s : List ℕ) (args : List Arg)
    → HasWords (suc n) args
    → (p : ℤ) × (rest : List ℕ) × (args1 : List Arg) × (parse_precision s args
        ≡ some (p, rest, args1))
      × Took n rest args1 s
unfolding parse_precision
parse_precision-total n [] args h = (
  negsuc 0,
  [],
  args,
  refl,
  record { rest_of = IsRest-same []; words = HasWords-weaken n args h },
)
parse_precision-total n (c ∷ s) args h = elim (Bool-cases (c == 46)) [
  | inl point ↦
      let (p, rest, args1, e, took) = precision_after-total n s args h in
      (
        p,
        rest,
        args1,
        rw (point, parse_precision) e,
        record {
          rest_of = IsRest-trans rest s (c ∷ s) took.rest_of (IsRest-tail c s);
          words = took.words;
        },
      )
  | inr point ↦ (
    negsuc 0,
    c ∷ s,
    args,
    rw (point, parse_precision) refl,
    record { rest_of = IsRest-same (c ∷ s); words = HasWords-weaken n args h },
  )
]
