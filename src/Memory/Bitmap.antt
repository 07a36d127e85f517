-- ===== src/Memory/Bitmap.antt =====
-- The bitmap of the pages, kernel/mm/mm.c, bit by bit.
use Prim.Native.Nat.{bit_and}
use s_os.Base.{
  ℕ, zero, suc, ◌+◌, ◌-◌, ◌*◌, ◌/◌, ◌%◌, ◌^◌, ◌≡◌, ◌≤◌, ◌<◌, refl, ◌∙◌, sym, subst, Option-cases,
  Bool, true, false, none, some, ◌==◌, leb, ltb, if◌then◌else◌, arith, Bool-cases, inl, inr,
}
use s_os.Base.Bits.{
  test_bit, test-or, test-and, test-shl, test-shr, test-mod, test-mask, test_above, test-zero,
}
use s_os.Memory.{window, find_bit, find_pages}

-- Is the page with that number in use?
unfoldable pub used : (ℕ → ℕ) → ℕ → Bool
used bits page = test_bit (bits (page / 64)) (page % 64)

-- the words of the bitmap have 64 bits
abbrev pub AreWords : (ℕ → ℕ) → Type 0
AreWords bits = (w : ℕ) → bits w < 2 ^ 64

pub window-used :
    (bits : ℕ → ℕ) (w k l : ℕ)
    → AreWords bits
    → k < 64
    → l < 64
    → test_bit (window bits w k) l ≡ used bits (64 * w + k + l)
unfolding window used
window-used bits w k l words hk hl = elim (Bool-cases (k == 0)) [
  | inl z ↦
      let e : (64 * w + k + l) / 64 ≡ w = ground arith in
      let e' : (64 * w + k + l) % 64 ≡ l = ground arith in rw (z, e, e') refl
  | inr nz ↦ elim (Bool-cases (ltb (k + l) 64)) [
    | inl h ↦
        let e : (64 * w + k + l) / 64 ≡ w = ground arith in
        let e' : (64 * w + k + l) % 64 ≡ l + k = ground arith in
        rw (nz, e, e')
          (ground (
            arith,
            test-or (bits w / 2 ^ k) (bits (w + 1) * 2 ^ (64 - k) % 2 ^ 64) l,
            test-shr k (bits w) l,
            test-mod 64 (bits (w + 1) * 2 ^ (64 - k)) l,
            test-shl (64 - k) (bits (w + 1)) l,
          ))
    | inr h ↦
        let e : (64 * w + k + l) / 64 ≡ w + 1 = ground arith in
        let e' : (64 * w + k + l) % 64 ≡ l - (64 - k) = ground arith in
        rw (nz, e, e')
          (ground (
            arith,
            test-or (bits w / 2 ^ k) (bits (w + 1) * 2 ^ (64 - k) % 2 ^ 64) l,
            test-shr k (bits w) l,
            test-mod 64 (bits (w + 1) * 2 ^ (64 - k)) l,
            test-shl (64 - k) (bits (w + 1)) l,
            test_above 64 (bits w) (l + k) (words w),
          ))
  ]
]

-- If the low bits of a word masked off are 0, each of them is clear.
clear_bits :
    (w number l : ℕ) → (bit_and w (2 ^ number - 1) == 0) ≡ true → l < number → test_bit w l ≡ false
clear_bits w number l h k =
    let e : bit_and w (2 ^ number - 1) ≡ 0 = ground arith in
    let b : test_bit (bit_and w (2 ^ number - 1)) l ≡ false = rw e (test-zero l) in
    ground (arith, test-and w (2 ^ number - 1) l, test-mask number l)

pub find_bit-free :
    (n : ℕ) (bits : ℕ → ℕ) (w number k0 k : ℕ)
    → AreWords bits
    → k0 + n ≤ 64
    → number < 64
    → find_bit n bits w number k0 ≡ some k
    → (k0 ≤ k) × (k < 64) × ((l : ℕ) → l < number → used bits (64 * w + k + l) ≡ false)
unfolding find_bit
find_bit-free zero bits w number k0 k words h small e = absurd (ground arith)
find_bit-free (suc n) bits w number k0 k words h small e =
    elim (Bool-cases (bit_and (window bits w k0) (2 ^ number - 1) == 0)) [
      | inl z ↦
          let same : k0 ≡ k = ground arith in
          (
            omega arith,
            omega arith,
            (λ l hl.
                sym (window-used bits w k l words (omega arith) (omega arith))
                ∙ clear_bits (window bits w k) number l (rw⁻¹ same z) hl),
          )
      | inr nz ↦
          let (a, b, c) =
            find_bit-free n bits w number (k0 + 1) k words (omega arith) small (ground arith) in
          (omega arith, b, c)
    ]

find_pages-end : (bits : ℕ → ℕ) (number last tmp j : ℕ) → find_pages 0 bits number last tmp j ≡ none
unfolding find_pages
find_pages-end bits number last tmp j = refl

module _ (n : ℕ) (bits : ℕ → ℕ) (number last tmp j : ℕ) where
  pub find_pages-found :
      (k : ℕ)
      → leb j last ≡ true
      → find_bit (64 - j % 64) bits (j / 64) number (j % 64) ≡ some k
      → find_pages (suc n) bits number last tmp j ≡ some (j + k - j % 64)
  unfolding find_pages
  find_pages-found k h e = rw (h, e, find_pages) refl

  pub find_pages-next :
      leb j last ≡ true
      → find_bit (64 - j % 64) bits (j / 64) number (j % 64) ≡ none
      → find_pages (suc n) bits number last tmp j
        ≡ find_pages n bits number last tmp (j + (if j % 64 == 0 then 64 else tmp))
  unfolding find_pages
  find_pages-next h e = rw (h, e, find_pages) refl

  find_pages-over : leb j last ≡ false → find_pages (suc n) bits number last tmp j ≡ none
  unfolding find_pages
  find_pages-over h = rw (h, find_pages) refl

pub find_pages-free :
    (n : ℕ) (bits : ℕ → ℕ) (number last tmp j page : ℕ)
    → AreWords bits
    → number < 64
    → find_pages n bits number last tmp j ≡ some page
    → (l : ℕ) → l < number
    → used bits (page + l) ≡ false
find_pages-free zero bits number last tmp j page words small e l hl =
    let no : none ≡ some page = sym (find_pages-end bits number last tmp j) ∙ e in
    absurd (ground arith)
find_pages-free (suc n) bits number last tmp j page words small e l hl =
    elim (Bool-cases (leb j last)) [
      | inl h ↦ elim (Option-cases (find_bit (64 - j % 64) bits (j / 64) number (j % 64))) [
        | inl none_here ↦
            find_pages-free n bits number last tmp (j + (if j % 64 == 0 then 64 else tmp)) page
              words small (sym (find_pages-next n bits number last tmp j h none_here) ∙ e) l hl
        | inr (k, here) ↦
            let (a, b, c) =
              find_bit-free (64 - j % 64) bits (j / 64) number (j % 64) k words (omega arith) small
                here in
            let same : some (j + k - j % 64) ≡ some page =
              sym (find_pages-found n bits number last tmp j k h here) ∙ e in
            let at : 64 * (j / 64) + k + l ≡ page + l = ground arith in
            subst (λ q. used bits q ≡ false) at (c l hl)
      ]
      | inr h ↦
          let no : none ≡ some page = sym (find_pages-over n bits number last tmp j h) ∙ e in
          absurd (ground arith)
    ]
