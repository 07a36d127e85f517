-- ===== src/Printk/Tests.antt =====
-- A few numbers, printed.
use s_os.Base.{
  ℕ, ◌+◌, ◌-◌, ◌≡◌, refl, some, List, [], ◌∷◌, length, ◌==◌, ◌&&◌, leb, ◌^◌, if◌then◌else◌, arith,
}
use s_os.Base.Int.{pos, negsuc}
use s_os.Printk.{
  number, skip_atoi, sign_char, has_flag, prefix, sign, digits_of, digit, backwards, layout, room,
  after_pad,
}
use s_os.Printk.Number.{larger, magnitude, number-length, magnitude-fits}
use s_os.Printk.Value.{skip_atoi-number}

-- `%#010x` of 0xbeef is 0x0000BEEF with the letters as capitals.
hex :
    number 0xbeef 16 (pos 10) (negsuc 0) 33
    ≡ some (48 ∷ (88 ∷ (48 ∷ (48 ∷ (48 ∷ (48 ∷ (66 ∷ (69 ∷ (69 ∷ (70 ∷ []))))))))))
unfolding number digits_of digit backwards layout room prefix sign_char has_flag after_pad
hex = refl

-- `%5d` of -42
number-length_example :
    (out bare : List ℕ) × (number (2 ^ 64 - 42) 10 (pos 5) (negsuc 0) 2 ≡ some out)
    × (number (magnitude 2 (2 ^ 64 - 42)) 10 (negsuc 0) (negsuc 0) 0 ≡ some bare)
    × (length out
        ≡ larger 5 (
            (if sign_char 2 (has_flag 2 sign && leb (2 ^ 63) (2 ^ 64 - 42)) == 0 then 0 else 1)
            + length (prefix 2 10)
            + larger 0 (length bare)))
number-length_example =
    number-length (2 ^ 64 - 42) 10 (pos 5) (negsuc 0) 2 (omega arith) (omega arith)
      (magnitude-fits 2 (2 ^ 64 - 42) 10 (omega arith) (omega arith))

skip_atoi-number_example :
    (out : List ℕ) × (number 1984 10 (negsuc 0) (negsuc 0) 0 ≡ some out)
    × (skip_atoi 0 out ≡ (1984, []))
skip_atoi-number_example = skip_atoi-number 1984 (omega arith)
