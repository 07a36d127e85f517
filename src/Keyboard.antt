-- ===== src/Keyboard.antt =====
-- The keyboard driver, kernel/device/keyboard.c, with kernel/include/keyboard.h.
--
-- `buf` is the array of that name by its index; `p_head` and `p_tail` are the indices that the pointers
-- have. `out` is what the driver prints with `(K:%c)`, last character first; the other prints are left
-- out. `count` is not bounded: an `int` counts so far in practice.
pub mod Buffer
pub mod Decode
pub mod Map
mod Tests
use Prim.Native.Nat.{bit_and}
use s_os.Base.{
  ℕ, zero, suc, ◌+◌, ◌-◌, ◌*◌, Bool, true, false, Option, none, some, List, [], ◌∷◌, get_or, ◌==◌,
  if◌then◌else◌, ◌||◌, not, update,
}
use s_os.Base.Monad.{◌>>=◌}
use s_os.Keyboard.Map.{keycode_map_normal}

abbrev pub kb_buf_size : ℕ
kb_buf_size = 100

pub record Keyboard : Type 0 where
  pub p_head : ℕ
  pub p_tail : ℕ
  pub count : ℕ
  pub buf : ℕ → ℕ
  pub shift_l : ℕ
  pub shift_r : ℕ
  pub ctrl_l : ℕ
  pub ctrl_r : ℕ
  pub alt_l : ℕ
  pub alt_r : ℕ
  pub out : List ℕ

-- What keyboard_init leaves.
unfoldable pub keyboard_init : List ℕ → Keyboard
keyboard_init out = record {
  p_head = 0;
  p_tail = 0;
  count = 0;
  buf = λ i. 0;
  shift_l = 0;
  shift_r = 0;
  ctrl_l = 0;
  ctrl_r = 0;
  alt_l = 0;
  alt_r = 0;
  out = out;
}

-- The interrupt handler, with the scan code that it reads from the port.
unfoldable pub keyboard_handler : Keyboard → ℕ → Keyboard
keyboard_handler k x =
    let head = if k.p_head == kb_buf_size then 0 else k.p_head in
    record k { p_head = head + 1; count = k.count + 1; buf = update k.buf head x }

-- `none`: the buffer is empty, and the function waits for an interrupt.
unfoldable pub get_scancode : Keyboard → Option (ℕ × Keyboard)
get_scancode k =
    let tail = if k.p_tail == kb_buf_size then 0 else k.p_tail in
    if k.count == 0
    then none
    else some (k.buf tail, record k { p_tail = tail + 1; count = k.count - 1 })

abbrev pub pausebreak : ℕ
pausebreak = 1

abbrev pub printscreen : ℕ
printscreen = 2

abbrev pub otherkey : ℕ
otherkey = 4

-- `pausebreak_scode[1]` to `pausebreak_scode[5]`
abbrev pub pausebreak_scode : List ℕ
pausebreak_scode = 0x1d ∷ (0x45 ∷ (0xe1 ∷ (0x9d ∷ (0xc5 ∷ []))))

-- The loop over the codes of the pause key: its key, or 0 at the first code that differs.
unfoldable pub pause_key : List ℕ → Keyboard → Option (ℕ × Keyboard)
pause_key [] k = some (pausebreak, k)
pause_key (c ∷ cs) k = do
  (x, k1) ← get_scancode k
  (let rest = pause_key cs k1 in if x == c then rest else some (0, k1))

-- One of the two tails of the print-screen key: 0xE0, then `last`.
unfoldable pub print_key : ℕ → Keyboard → Option (ℕ × Keyboard)
print_key last k = do
  (a, k1) ← get_scancode k
  (let rest : Option (ℕ × Keyboard) = (do
    (b, k2) ← get_scancode k1
    some ((if b == last then printscreen else 0), k2)) in
      if a == 0xe0 then rest else some (0, k1))

-- the `switch` on the code behind 0xE0
unfoldable pub function_key : ℕ → Keyboard → Option (ℕ × Keyboard)
function_key x k =
    if x == 0x2a
    then print_key 0x37 k
    else if x == 0xb7
    then print_key 0xaa k
    else if x == 0x1d
    then some (otherkey, record k { ctrl_r = 1 })
    else if x == 0x9d
    then some (otherkey, record k { ctrl_r = 0 })
    else if x == 0x38
    then some (otherkey, record k { alt_r = 1 })
    else if x == 0xb8
    then some (otherkey, record k { alt_r = 0 })
    else some (otherkey, k)

-- `if (key) color_printk(…)`
unfoldable pub print_char : Keyboard → ℕ → Keyboard
print_char k key = if key == 0 then k else record k { out = key ∷ k.out }

-- the part for the ordinary keys
unfoldable pub ordinary_key : Keyboard → ℕ → Keyboard
ordinary_key k x =
    let make = if bit_and x 0x80 == 0 then 1 else 0 in
    let column = if not (k.shift_l == 0) || not (k.shift_r == 0) then 1 else 0 in
    let key = get_or keycode_map_normal (bit_and x 0x7f * 2 + column) 0 in
    let code = bit_and x 0x7f in
    if code == 0x2a
    then record k { shift_l = make }
    else if code == 0x36
    then record k { shift_r = make }
    else if code == 0x1d
    then record k { ctrl_l = make }
    else if code == 0x38
    then record k { alt_l = make }
    else print_char k (if make == 0 then 0 else key)

-- the code and the key that stand when the ordinary part is reached
unfoldable pub read_key : ℕ → Keyboard → Option (ℕ × ℕ × Keyboard)
read_key x k =
    let pause : Option (ℕ × ℕ × Keyboard) = (do
      (key, k1) ← pause_key pausebreak_scode k
      some (x, key, k1)) in
    let function : Option (ℕ × ℕ × Keyboard) = (do
      (y, k1) ← get_scancode k
      (key, k2) ← function_key y k1
      some (y, key, k2)) in
    if x == 0xe1 then pause else if x == 0xe0 then function else some (x, 0, k)

unfoldable pub analysis_keycode : Keyboard → Option Keyboard
analysis_keycode k = do
  (x, k1) ← get_scancode k
  (y, key, k2) ← read_key x k1
  some (if key == 0 then ordinary_key k2 y else k2)
