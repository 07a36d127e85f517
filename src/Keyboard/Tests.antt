-- ===== src/Keyboard/Tests.antt =====
-- The keyboard driver on a few keys.
use s_os.Base.{
  ℕ, ◌+◌, ◌≡◌, ◌≤◌, refl, some, List, [], ◌∷◌, ◌++◌, length, replicate, length-append, subst, sym,
  arith,
}
use mathlib.Core.List.{append-nil, append_assoc}
use s_os.Keyboard.{Keyboard, keyboard_init, keyboard_handler, analysis_keycode}
use s_os.Keyboard.Buffer.{Holds, Holds-same, keyboard_init-Holds, keyboard_handler-Holds}
use s_os.Keyboard.Decode.{Decoded, analysis_keycode-ordinary}

abbrev start : Keyboard
start = keyboard_init []

-- the codes arrive, and are in the buffer
abbrev arrive : Keyboard → List ℕ → Keyboard
arrive k [] = k
arrive k (x ∷ xs) = arrive (keyboard_handler k x) xs

arrive-Holds :
    (k : Keyboard) (xs ys : List ℕ)
    → Holds k ys
    → length ys + length xs ≤ 100
    → Holds (arrive k xs) (ys ++ xs)
arrive-Holds k [] ys o h = subst (λ l. Holds k l) (sym (append-nil ys)) o
arrive-Holds k (x ∷ xs) ys o h =
    subst (λ l. Holds (arrive (keyboard_handler k x) xs) l) (append_assoc ys (x ∷ []) xs)
      (arrive-Holds (keyboard_handler k x) xs (ys ++ (x ∷ []))
        (keyboard_handler-Holds k ys o x (omega arith)) (omega (arith, length-append ys (x ∷ []))))

abbrev codes : List ℕ → Keyboard
codes xs = arrive start xs

codes-Holds : (xs : List ℕ) → length xs ≤ 100 → Holds (codes xs) xs
codes-Holds xs h = arrive-Holds start xs [] (keyboard_init-Holds []) (omega arith)

keyboard_handler-Holds_example :
    Holds (keyboard_handler (codes (0x2a ∷ [])) 0x1e) (0x2a ∷ (0x1e ∷ []))
keyboard_handler-Holds_example =
    keyboard_handler-Holds (codes (0x2a ∷ [])) (0x2a ∷ []) (codes-Holds (0x2a ∷ []) (omega arith))
      0x1e (omega arith)

abbrev full : List ℕ
full = replicate 99 0x1e

-- with the left shift key held
abbrev shift : List ℕ → Keyboard
shift xs = record (codes xs) { shift_l = 1 }

shift-Holds : (xs : List ℕ) → length xs ≤ 100 → Holds (shift xs) xs
shift-Holds xs h = Holds-same (codes xs) (shift xs) xs (codes-Holds xs h) refl refl refl refl

analysis_keycode-ordinary_example :
    (t : Keyboard) × (analysis_keycode (shift (0x1e ∷ [])) ≡ some t)
    × Holds t []
    × Decoded (shift (0x1e ∷ [])) 0x1e t
analysis_keycode-ordinary_example =
    analysis_keycode-ordinary (shift (0x1e ∷ [])) 0x1e [] (shift-Holds (0x1e ∷ []) (omega arith))
      (omega arith) (ground arith) (ground arith)
