-- ===== src/Keyboard/Decode.antt =====
-- What analysis_keycode of kernel/device/keyboard.c makes of the codes in the buffer.
use Prim.Native.Nat.{bit_and}
use s_os.Base.{
  ℕ, ◌+◌, ◌*◌, ◌%◌, ◌^◌, ◌≡◌, ◌<◌, ◌≢◌, refl, ap, subst, sym, Bool, some, List, ◌∷◌, ◌++◌, get_or,
  ◌==◌, ltb, ◌&&◌, ◌||◌, not, if◌then◌else◌, arith, Bool-cases, inl, inr,
}
use s_os.Base.Bits.{test_bit, test-and, test-mask, test-mod, eq_of_bits, and_pow-zero, and-lt}
use s_os.Keyboard.{
  Keyboard, analysis_keycode, read_key, ordinary_key, pause_key, function_key, print_char,
  pausebreak_scode,
}
use s_os.Keyboard.Map.{keycode_map_normal}
use s_os.Keyboard.Buffer.{Holds, Holds-same, get_scancode-Holds}

low_bits : (x : ℕ) → x < 256 → bit_and x 0x7f ≡ x % 128
low_bits x h =
    eq_of_bits 8 (bit_and x 127) (x % 2 ^ 7) (and-lt 8 x 127 h) (omega arith)
      (λ i k. ground (arith, test-and x 127 i, test-mask 7 i, test-mod 7 x i))

high_bit : (x : ℕ) → x < 256 → (bit_and x 0x80 == 0) ≡ ltb x 128
unfolding test_bit
high_bit x h = ground (arith, and_pow-zero x 7)

-- The specification: the character of a key that is pressed, 0 if it has none.
unfoldable pub character : Bool → ℕ → ℕ
character shift x = get_or keycode_map_normal (x * 2 + (if shift then 1 else 0)) 0

-- Is the code, without its top bit, that of a shift, control or alt key?
unfoldable pub is_modifier : ℕ → Bool
is_modifier code = (code == 0x2a) || (code == 0x36) || (code == 0x1d) || (code == 0x38)

abbrev pub shifted : Keyboard → Bool
shifted k = not (k.shift_l == 0) || not (k.shift_r == 0)

-- 1 while the key is down
abbrev pub held : ℕ → ℕ → ℕ → ℕ
held key x was = if x % 128 == key then (if ltb x 128 then 1 else 0) else was

-- what is printed
abbrev pub typed : Keyboard → ℕ → List ℕ
typed k x =
    if not (is_modifier (x % 128)) && ltb x 128 && not (character (shifted k) x == 0)
    then character (shifted k) x ∷ k.out
    else k.out

ordinary_key-eq :
    (k : Keyboard) (x : ℕ)
    → x < 256
    → ordinary_key k x ≡ record k {
      shift_l = held 0x2a x k.shift_l;
      shift_r = held 0x36 x k.shift_r;
      ctrl_l = held 0x1d x k.ctrl_l;
      alt_l = held 0x38 x k.alt_l;
      out = typed k x;
    }
unfolding ordinary_key is_modifier character print_char
ordinary_key-eq k x h =
    rw (ordinary_key, low_bits x h, high_bit x h)
      (elim (Bool-cases (ltb x 128)) [
        | inl low ↦ rw low (ground arith)
        | inr high ↦ rw high (ground arith)
      ])

ordinary_key-Holds :
    (k : Keyboard) (x : ℕ) (xs : List ℕ) → x < 256 → Holds k xs → Holds (ordinary_key k x) xs
ordinary_key-Holds k x xs h o =
    let e = ordinary_key-eq k x h in
    Holds-same k (ordinary_key k x) xs o (ap (λ q. q.p_head) e) (ap (λ q. q.p_tail) e)
      (ap (λ q. q.count) e) (ap (λ q. q.buf) e)

-- `t` is what an ordinary code makes of `k`, but for the tail and the count.
abbrev pub Decoded : Keyboard → ℕ → Keyboard → Type 0
Decoded k x t = t ≡ record k {
  p_tail = t.p_tail;
  count = t.count;
  shift_l = held 0x2a x k.shift_l;
  shift_r = held 0x36 x k.shift_r;
  ctrl_l = held 0x1d x k.ctrl_l;
  alt_l = held 0x38 x k.alt_l;
  out = typed k x;
}

ordinary_key-Decoded :
    (k : Keyboard) (p c x : ℕ)
    → x < 256
    → Decoded k x (ordinary_key (record k { p_tail = p; count = c }) x)
ordinary_key-Decoded k p c x h =
    subst (λ t. Decoded k x t) (sym (ordinary_key-eq (record k { p_tail = p; count = c }) x h)) refl

-- An ordinary code, that is a byte other than 0xE0 and 0xE1, is consumed alone. A shift, control or alt
-- key is noted as held or released and prints nothing; another key prints its character, by the shift
-- keys that are held, when it is pressed, and nothing when it is released. Nothing else changes.
pub analysis_keycode-ordinary :
    (k : Keyboard) (x : ℕ) (xs : List ℕ)
    → Holds k (x ∷ xs)
    → x < 256
    → x ≢ 0xe0
    → x ≢ 0xe1
    → (t : Keyboard) × (analysis_keycode k ≡ some t) × Holds t xs × Decoded k x t
unfolding analysis_keycode read_key
analysis_keycode-ordinary k x xs o h n0 n1 =
    let (k1, e, o1, c) = get_scancode-Holds k x xs o in
    let t = ordinary_key k1 x in
    (
      t,
      rw e (ground arith),
      ordinary_key-Holds k1 x xs h o1,
      subst (λ q. Decoded k x (ordinary_key q x)) (sym c)
          (ordinary_key-Decoded k k1.p_tail k1.count x h),
    )

-- The codes of the pause key are consumed together and change nothing but the buffer.
analysis_keycode-pause :
    (k : Keyboard) (xs : List ℕ)
    → Holds k (0xe1 ∷ (pausebreak_scode ++ xs))
    → (t : Keyboard) × (analysis_keycode k ≡ some t)
      × Holds t xs
      × (t ≡ record k { p_tail = t.p_tail; count = t.count })
unfolding analysis_keycode read_key pause_key
analysis_keycode-pause k xs o =
    let (k0, e0, o0, c0) = get_scancode-Holds k 0xe1 (pausebreak_scode ++ xs) o in
    let (k1, e1, o1, c1) = get_scancode-Holds k0 _ _ o0 in
    let (k2, e2, o2, c2) = get_scancode-Holds k1 _ _ o1 in
    let (k3, e3, o3, c3) = get_scancode-Holds k2 _ _ o2 in
    let (k4, e4, o4, c4) = get_scancode-Holds k3 _ _ o3 in
    let (k5, e5, o5, c5) = get_scancode-Holds k4 _ _ o4 in
    (k5, rw (e0, e1, e2, e3, e4, e5, pause_key) refl, o5, ground arith)

function_step :
    (k : Keyboard) (x : ℕ)
    → x ≢ 0x2a
    → x ≢ 0xb7
    → function_key x k
      ≡ some (
        4,
        record k {
          ctrl_r = if x == 0x1d then 1 else if x == 0x9d then 0 else k.ctrl_r;
          alt_r = if x == 0x38 then 1 else if x == 0xb8 then 0 else k.alt_r;
        },
      )
unfolding function_key
function_step k x n0 n1 = ground arith

-- The key of a code behind 0xE0 that is not print screen: the right control and alt keys are noted as
-- held or released; every other key, and the left modifiers, stay as they were, and nothing is printed.
analysis_keycode-function :
    (k : Keyboard) (x : ℕ) (xs : List ℕ)
    → Holds k (0xe0 ∷ (x ∷ xs))
    → x ≢ 0x2a
    → x ≢ 0xb7
    → (t : Keyboard) × (analysis_keycode k ≡ some t)
      × Holds t xs
      × (t ≡ record k {
        p_tail = t.p_tail;
        count = t.count;
        ctrl_r = if x == 0x1d then 1 else if x == 0x9d then 0 else k.ctrl_r;
        alt_r = if x == 0x38 then 1 else if x == 0xb8 then 0 else k.alt_r;
      })
unfolding analysis_keycode read_key
analysis_keycode-function k x xs o n0 n1 =
    let (k0, e0, o0, c0) = get_scancode-Holds k 0xe0 (x ∷ xs) o in
    let (k1, e1, o1, c1) = get_scancode-Holds k0 x xs o0 in
    let t = record k1 {
      ctrl_r = if x == 0x1d then 1 else if x == 0x9d then 0 else k1.ctrl_r;
      alt_r = if x == 0x38 then 1 else if x == 0xb8 then 0 else k1.alt_r;
    } in
    (
      t,
      rw (e0, e1, function_step k1 x n0 n1) refl,
      Holds-same k1 t xs o1 refl refl refl refl,
      ground arith,
    )
