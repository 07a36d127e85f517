-- ===== src/Screen.antt =====
-- The screen, kernel/debug/printk.c: putchar, and how color_printk moves the cursor through a string that
-- vsprintf has made. The locking around it is left out.
--
-- The cursor is never left of column 0 or above row 0 when a character is read: a backspace tests for that
-- at once. The drawing is recorded: `drawn` holds column, row and character of each call of putchar, last
-- call first.
pub mod Cursor
mod Tests
use Prim.Native.Nat.{bit_and}
use s_os.Base.{
  ℕ, zero, suc, ◌+◌, ◌-◌, ◌*◌, ◌/◌, ◌%◌, ◌^◌, Bool, List, [], ◌∷◌, ◌==◌, leb, if◌then◌else◌, update,
}

-- `struct position`
pub record Position : Type 0 where
  pub x_resolution : ℕ
  pub y_resolution : ℕ
  pub x_position : ℕ
  pub y_position : ℕ
  pub x_char_size : ℕ
  pub y_char_size : ℕ
  pub drawn : List (ℕ × ℕ × ℕ)

-- One row of a character: the pixels from `addr` on, with `n` to go; `testval` has the bit of the next one.
unfoldable pub put_row : ℕ → (ℕ → ℕ) → ℕ → ℕ → ℕ → ℕ → ℕ → ℕ → ℕ
put_row zero fb addr fr bk bits testval = fb
put_row (suc n) fb addr fr bk bits testval =
    let t = testval / 2 in
    put_row n (update fb addr (if bit_and bits t == 0 then bk else fr)) (addr + 1) fr bk bits t

-- The rows from `i` on, with `n` to go. `font` is the bitmap of the character, `font_ascii[font]`.
unfoldable pub put_rows : ℕ → (ℕ → ℕ) → ℕ → ℕ → ℕ → ℕ → ℕ → (ℕ → ℕ) → ℕ → ℕ → ℕ
put_rows zero fb xsize x y fr bk font i = fb
put_rows (suc n) fb xsize x y fr bk font i =
    put_rows n (put_row 8 fb (xsize * (y + i) + x) fr bk (font i) 0x100) xsize x y fr bk font
      (i + 1)

unfoldable pub putchar : (ℕ → ℕ) → ℕ → ℕ → ℕ → ℕ → ℕ → (ℕ → ℕ) → ℕ → ℕ
putchar fb xsize x y fr bk font = put_rows 16 fb xsize x y fr bk font 0

-- the columns of the screen
abbrev pub columns : Position → ℕ
columns p = p.x_resolution / p.x_char_size

unfoldable pub draw : Position → ℕ → Position
draw p c = record p { drawn = (p.x_position, p.y_position, c) ∷ p.drawn }

-- what ends the body of the loop: a new line at the end of a line, and the first one after row 50
unfoldable pub wrap : Position → Position
wrap p =
    let p1 =
      if leb (columns p) p.x_position
      then record p { x_position = 0; y_position = p.y_position + 1 }
      else p in
    if leb 50 p1.y_position then record p1 { y_position = 0 } else p1

-- a character that advances the cursor
unfoldable pub advance : Position → ℕ → Position
advance p c = let p1 = draw p c in wrap (record p1 { x_position = p1.x_position + 1 })

-- the spaces of a tab, each with the end of the loop's body
unfoldable pub spaces : ℕ → Position → Position
spaces zero p = p
spaces (suc n) p = spaces n (advance p 32)

unfoldable pub back : Position → Position
back p =
    if p.x_position == 0
    then record p {
      x_position = (columns p - 1) * p.x_char_size;
      y_position =
          if p.y_position == 0
          then (p.y_resolution / p.y_char_size - 1) * p.y_char_size
          else p.y_position - 1;
    }
    else record p { x_position = p.x_position - 1 }

-- one character of the string
unfoldable pub put : Position → ℕ → Position
put p c =
    if c == 10
    then wrap (record p { x_position = 0; y_position = p.y_position + 1 })
    else if c == 8
    then wrap (draw (back p) 32)
    else if c == 9
    then spaces (bit_and (p.x_position + 8) (2 ^ 32 - 1 - 7) - p.x_position) p
    else advance p c

-- the loop over the string
unfoldable pub color_printk : Position → List ℕ → Position
color_printk p [] = p
color_printk p (c ∷ s) = color_printk (put p c) s
