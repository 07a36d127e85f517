-- ===== src/Keyboard/Buffer.antt =====
-- The ring buffer of kernel/device/keyboard.c as a queue of scan codes.
use s_os.Base.{
  ℕ, zero, suc, ◌+◌, ◌-◌, ◌%◌, ◌≡◌, ◌≤◌, ◌<◌, refl, ◌∙◌, some, List, [], ◌∷◌, ◌++◌, length,
  length-append, get_or, ◌==◌, if◌then◌else◌, arith,
}
use s_os.Keyboard.{Keyboard, keyboard_init, keyboard_handler, get_scancode}

-- The buffer holds `xs`, oldest first, from the tail on.
pub record Holds (k : Keyboard) (xs : List ℕ) : Type 0 where
  pub head_in : k.p_head ≤ 100
  pub tail_in : k.p_tail ≤ 100
  pub few : length xs ≤ 100
  pub count : k.count ≡ length xs
  pub span : k.p_head % 100 ≡ (k.p_tail + length xs) % 100
  pub cells : (i : ℕ) → i < length xs → k.buf ((k.p_tail + i) % 100) ≡ get_or xs i 0

get_or-append :
    (xs : List ℕ) (x i : ℕ)
    → get_or (xs ++ (x ∷ [])) i 0 ≡ (if i == length xs then x else get_or xs i 0)
get_or-append [] x zero = refl
get_or-append [] x (suc i) = ground arith
get_or-append (y ∷ ys) x zero = ground arith
get_or-append (y ∷ ys) x (suc i) = ground (arith, get_or-append ys x i)

pub keyboard_init-Holds : (out : List ℕ) → Holds (keyboard_init out) []
unfolding keyboard_init
keyboard_init-Holds out = record {
  head_in = omega arith;
  tail_in = omega arith;
  few = omega arith;
  count = refl;
  span = refl;
  cells = λ i h. absurd (omega arith);
}

module _ (k : Keyboard) (xs : List ℕ) (o : Holds k xs) where
  -- While fewer than 100 codes are waiting, the handler appends the new one.
  pub keyboard_handler-Holds :
      (x : ℕ) → length xs < 100 → Holds (keyboard_handler k x) (xs ++ (x ∷ []))
  unfolding keyboard_handler
  keyboard_handler-Holds x few =
      let n = length-append xs (x ∷ []) in
      record {
        head_in = ground (arith, o.head_in);
        tail_in = o.tail_in;
        few = omega (arith, n);
        count = omega (arith, n, o.count);
        span = ground (arith, n, o.span, o.head_in);
        cells = λ i h. ground (arith, n, get_or-append xs x i, o.cells i, o.span, o.head_in);
      }

module _ (k : Keyboard) (x : ℕ) (xs : List ℕ) (o : Holds k (x ∷ xs)) where
  -- get_scancode takes the oldest code out, and changes nothing but the tail and the count.
  pub get_scancode-Holds :
      (t : Keyboard) × (get_scancode k ≡ some (x, t))
      × Holds t xs
      × (t ≡ record k { p_tail = t.p_tail; count = t.count })
  unfolding get_scancode
  get_scancode-Holds = (
    record k { p_tail = (if k.p_tail == 100 then 0 else k.p_tail) + 1; count = k.count - 1 },
    ground (arith, o.count, o.cells 0, o.tail_in),
    record {
      head_in = o.head_in;
      tail_in = ground (arith, o.tail_in);
      few = omega (arith, o.few);
      count = omega (arith, o.count);
      span = ground (arith, o.span, o.tail_in);
      cells = λ i h. ground (arith, o.cells (suc i), o.tail_in);
    },
    refl,
  )

  -- When 100 codes are waiting, the handler overwrites the oldest one, and the buffer is out of order:
  -- the new code is the next one that is read, and 100 codes are still counted after that.
  keyboard_handler-overruns :
      (y : ℕ)
      → length xs ≡ 99
      → (t : Keyboard) × (get_scancode (keyboard_handler k y) ≡ some (y, t)) × (t.count ≡ 100)
  unfolding get_scancode keyboard_handler
  keyboard_handler-overruns y full =
      let k1 = keyboard_handler k y in
      (
        record k1 {
          p_tail = (if k1.p_tail == 100 then 0 else k1.p_tail) + 1;
          count = k1.count - 1;
        },
        ground (arith, o.count, o.span, o.tail_in, o.head_in),
        omega (arith, o.count),
      )

-- The buffer's contents depend on four fields.
pub Holds-same :
    (k t : Keyboard) (xs : List ℕ)
    → Holds k xs
    → t.p_head ≡ k.p_head
    → t.p_tail ≡ k.p_tail
    → t.count ≡ k.count
    → t.buf ≡ k.buf
    → Holds t xs
Holds-same k t xs o eh et ec eb = record {
  head_in = omega (arith, eh, o.head_in);
  tail_in = omega (arith, et, o.tail_in);
  few = o.few;
  count = ec ∙ o.count;
  span = ground (arith, eh, et, o.span);
  cells = λ i h. rw (eb, et) (o.cells i h);
}
