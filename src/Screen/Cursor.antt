-- ===== src/Screen/Cursor.antt =====
-- Where color_printk of kernel/debug/printk.c leaves the cursor.
use s_os.Base.{ℕ, ◌+◌, ◌-◌, ◌*◌, ◌≡◌, ◌≤◌, ◌<◌, ap, sym, true, false, List, ◌∷◌, ◌==◌, leb, arith}
use s_os.Screen.{Position, columns, draw, wrap, back, put, color_printk}

-- The cursor is in one of the columns, and in one of the 50 rows that are used.
pub record InScreen (p : Position) : Type 0 where
  pub column : p.x_position < columns p
  pub row : p.y_position < 50

far_right : (a c : ℕ) → c ≡ 8 → 2 ≤ a → a ≤ (a - 1) * c
far_right a c e h = rw e (omega arith)

stays :
    (p : Position)
    → p.x_position ≡ 0
    → 1 ≤ p.y_position
    → p.y_position < 50
    → columns p ≤ (columns p - 1) * p.x_char_size
    → wrap (draw (back p) 32)
      ≡ record p { drawn = ((columns p - 1) * p.x_char_size, p.y_position - 1, 32) ∷ p.drawn }
unfolding back draw wrap
stays p start below row beyond =
    let z : (p.x_position == 0) ≡ true = ground arith in
    let nz : (p.y_position == 0) ≡ false = ground arith in
    let far : leb (columns p) ((columns p - 1) * p.x_char_size) ≡ true = ground arith in
    let same : p.y_position - 1 + 1 ≡ p.y_position = omega arith in
    let small : leb 50 p.y_position ≡ false = ground arith in
    let at : ℕ → Position = λ x. record p {
      x_position = x;
      drawn = ((columns p - 1) * p.x_char_size, p.y_position - 1, 32) ∷ p.drawn;
    } in
    rw (z, nz, far, same, small) (ap at (sym start))

-- With characters 8 pixels wide and at least two columns, a backspace at the start of a row that is not
-- the first leaves the cursor where it is, and draws its blank to the right of the last column.
color_printk-backspace :
    (p : Position) (s : List ℕ)
    → InScreen p
    → p.x_position ≡ 0
    → 1 ≤ p.y_position
    → p.x_char_size ≡ 8
    → 2 ≤ columns p
    → (column : ℕ) × (columns p ≤ column)
      × (color_printk p (8 ∷ s)
          ≡ color_printk (record p { drawn = (column, p.y_position - 1, 32) ∷ p.drawn }) s)
unfolding color_printk put
color_printk-backspace p s o start below eight two =
    let far = (columns p - 1) * p.x_char_size in
    let beyond : columns p ≤ far = far_right (columns p) p.x_char_size eight two in
    (far, beyond, ap (λ q. color_printk q s) (stays p start below o.row beyond))
