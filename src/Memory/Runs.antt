-- ===== src/Memory/Runs.antt =====
-- What taking and giving back a run of pages does to the bitmap of kernel/mm/mm.c.
use s_os.Base.{
  ℕ, zero, suc, ◌+◌, ◌-◌, ◌/◌, ◌%◌, ◌^◌, ◌≡◌, ◌≤◌, ◌<◌, refl, ◌∙◌, Bool, ◌==◌, leb, ltb, ◌||◌, not,
  ◌&&◌, arith,
}
use s_os.Base.Bits.{test-or, test-and, test-pow, test-complement, pow_lt}
use s_os.Memory.{Memory, page_bit, take_page, take_pages, give_page, give_pages}
use s_os.Memory.Bitmap.{used}

-- The `number` pages from `page` on are at their own addresses, q * 2 MB for page `q`, so that each has the
-- bit with its number. init_memory leaves the pages of zones like this.
abbrev pub HasPlace : Memory → ℕ → ℕ → Type 0
HasPlace m page number = (q : ℕ) → page ≤ q → q < page + number → page_bit m q ≡ q

-- Is `q` one of the `number` pages from `page` on?
unfoldable pub in_run : ℕ → ℕ → ℕ → Bool
in_run page number q = leb page q && ltb q (page + number)

take_page-used :
    (m : Memory) (z a page q : ℕ)
    → page_bit m page ≡ page
    → used (take_page m z a page).bits_map q ≡ (used m.bits_map q || (q == page))
unfolding take_page used
take_page-used m z a page q e =
    ground (
      arith,
      test-or (m.bits_map (q / 64)) (2 ^ (page % 64)) (q % 64),
      test-pow (page % 64) (q % 64),
    )

take_page-place : (m : Memory) (z a page q : ℕ) → page_bit (take_page m z a page) q ≡ page_bit m q
unfolding take_page
take_page-place m z a page q = ground arith

pub take_pages-used :
    (n : ℕ) (m : Memory) (z a page q : ℕ)
    → HasPlace m page n
    → used (take_pages n m z a page).bits_map q ≡ (used m.bits_map q || in_run page n q)
unfolding take_pages in_run
take_pages-used zero m z a page q o = ground arith
take_pages-used (suc n) m z a page q o =
    take_pages-used n (take_page m z a page) z a (page + 1) q
      (λ k l h. take_page-place m z a page k ∙ o k (omega arith) (omega arith))
    ∙ ground (arith, take_page-used m z a page q (o page (omega arith) (omega arith)))

pub take_pages-place :
    (n : ℕ) (m : Memory) (z a page q : ℕ) → page_bit (take_pages n m z a page) q ≡ page_bit m q
unfolding take_pages
take_pages-place zero m z a page q = refl
take_pages-place (suc n) m z a page q =
    take_pages-place n (take_page m z a page) z a (page + 1) q ∙ take_page-place m z a page q

give_page-used :
    (m : Memory) (page q : ℕ)
    → page_bit m page ≡ page
    → used (give_page m page).bits_map q ≡ (used m.bits_map q && not (q == page))
unfolding give_page used
give_page-used m page q e = ground (
  arith,
  test-and (m.bits_map (q / 64)) (2 ^ 64 - 1 - 2 ^ (page % 64)) (q % 64),
  test-complement 64 (2 ^ (page % 64)) (q % 64),
  pow_lt (page % 64) 64,
  test-pow (page % 64) (q % 64),
)

give_page-place : (m : Memory) (page q : ℕ) → page_bit (give_page m page) q ≡ page_bit m q
unfolding give_page
give_page-place m page q = ground arith

pub give_pages-used :
    (n : ℕ) (m : Memory) (page q : ℕ)
    → HasPlace m page n
    → used (give_pages n m page).bits_map q ≡ (used m.bits_map q && not (in_run page n q))
unfolding give_pages in_run
give_pages-used zero m page q o = ground arith
give_pages-used (suc n) m page q o =
    give_pages-used n (give_page m page) (page + 1) q
      (λ k l h. give_page-place m page k ∙ o k (omega arith) (omega arith))
    ∙ ground (arith, give_page-used m page q (o page (omega arith) (omega arith)))
