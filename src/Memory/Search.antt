-- ===== src/Memory/Search.antt =====
-- The search of alloc_pages of kernel/mm/mm.c misses no run of free pages.
use Prim.Native.Nat.{bit_and}
use native.Mathlib.Nat.{div-le_self}
use s_os.Base.{
  ℕ, zero, suc, ◌+◌, ◌-◌, ◌*◌, ◌/◌, ◌%◌, ◌^◌, ◌≡◌, ◌≤◌, ◌<◌, ◌≢◌, refl, ◌∙◌, sym, ap, subst, true,
  false, none, some, ◌==◌, leb, ltb, ◌||◌, if◌then◌else◌, arith, Bool-cases, Option-cases, inl, inr,
}
use s_os.Base.Bits.{test_bit, test-and, test-mask, zero_of_bits, and-lt, or-lt}
use s_os.Memory.{
  Memory, found, window, find_bit, find_pages, try_zones, take_pages, alloc_pages, pg_ptable_maped,
  zone_normal,
}
use s_os.Memory.Bitmap.{used, AreWords, window-used, find_pages-found, find_pages-next}

masked_zero :
    (w number : ℕ)
    → w < 2 ^ 64
    → ((l : ℕ) → l < number → test_bit w l ≡ false)
    → (bit_and w (2 ^ number - 1) == 0) ≡ true
masked_zero w number h clear =
    let mask = 2 ^ number - 1 in
    let zeros : bit_and w mask ≡ 0 = zero_of_bits 64 (bit_and w mask) (and-lt 64 w mask h) (λ k l.
      elim (Bool-cases (ltb k number)) [
        | inl i ↦ ground (arith, test-and w mask k, clear k (ground arith))
        | inr o ↦ ground (arith, test-and w mask k, test-mask number k)
      ]) in
    ground arith

window-lt : (bits : ℕ → ℕ) (w k : ℕ) → AreWords bits → window bits w k < 2 ^ 64
unfolding window
window-lt bits w k words =
    let low : bits w / 2 ^ k < 2 ^ 64 = omega (arith, div-le_self (bits w) (2 ^ k), words w) in
    ground (arith, or-lt 64 (bits w / 2 ^ k) (bits (w + 1) * 2 ^ (64 - k) % 2 ^ 64), words w)

-- A step that finds nothing has seen no free run.
find_bit-none :
    (n : ℕ) (bits : ℕ → ℕ) (w number k0 k : ℕ)
    → find_bit n bits w number k0 ≡ none
    → k0 ≤ k
    → k < k0 + n
    → (bit_and (window bits w k) (2 ^ number - 1) == 0) ≡ false
unfolding find_bit
find_bit-none zero bits w number k0 k e l h = absurd (omega arith)
find_bit-none (suc n) bits w number k0 k e l h =
    elim (Bool-cases (bit_and (window bits w k0) (2 ^ number - 1) == 0)) [
      | inl z ↦ ground arith
      | inr nz ↦ elim (Bool-cases (k0 == k)) [
        | inl here ↦
            let same : k0 ≡ k = ground arith in
            subst (λ q. (bit_and (window bits w q) (2 ^ number - 1) == 0) ≡ false) same nz
        | inr later ↦
            find_bit-none n bits w number (k0 + 1) k (ground arith) (ground arith) (omega arith)
      ]
    ]

-- the first page of a free run
abbrev pub IsRun : (ℕ → ℕ) → ℕ → ℕ → Type 0
IsRun bits number q = (l : ℕ) → l < number → used bits (q + l) ≡ false

find_bit-run :
    (bits : ℕ → ℕ) (number j q : ℕ)
    → AreWords bits
    → number < 64
    → IsRun bits number q
    → j ≤ q
    → q < 64 * (j / 64) + 64
    → find_bit (64 - j % 64) bits (j / 64) number (j % 64) ≢ none
find_bit-run bits number j q words small run l h e =
    let w = j / 64 in
    let k = q - 64 * w in
    let at : 64 * w + k ≡ q = omega arith in
    let clear = λ (b : ℕ) (hb : b < number).
      window-used bits w k b words (omega arith) (omega arith)
      ∙ subst (λ r. used bits (r + b) ≡ false) (sym at) (run b hb) in
    ground (
      arith,
      find_bit-none (64 - j % 64) bits w number (j % 64) k e (omega arith) (omega arith),
      masked_zero (window bits w k) number (window-lt bits w k words) clear,
    )

find_pages-finds :
    (n : ℕ) (bits : ℕ → ℕ) (number last tmp j q : ℕ)
    → AreWords bits
    → number < 64
    → (j % 64 ≢ 0 → tmp ≡ 64 - j % 64)
    → last < j + n
    → IsRun bits number q
    → j ≤ q
    → q ≤ last
    → (page : ℕ) × (find_pages n bits number last tmp j ≡ some page)
find_pages-finds zero bits number last tmp j q words small aligned fuel run l h =
    absurd (omega arith)
find_pages-finds (suc n) bits number last tmp j q words small aligned fuel run l h =
    let inside : leb j last ≡ true = ground arith in
    elim (Option-cases (find_bit (64 - j % 64) bits (j / 64) number (j % 64))) [
      | inr (k, here) ↦ (j + k - j % 64, find_pages-found n bits number last tmp j k inside here)
      | inl nothing ↦
          let next = j + (if j % 64 == 0 then 64 else tmp) in
          let behind : 64 * (j / 64) + 64 ≤ q = elim (Bool-cases (ltb q (64 * (j / 64) + 64))) [
            | inl near ↦
                absurd (find_bit-run bits number j q words small run l (ground arith) nothing)
            | inr far ↦ ground arith
          ] in
          let at : next ≡ 64 * (j / 64) + 64 = ground (arith, aligned) in
          let even : next % 64 ≡ 0 = omega (arith, at) in
          let (page, e) =
            find_pages-finds n bits number last tmp next q words small (λ odd. absurd (odd even))
              (omega (arith, at)) run (omega (arith, at)) h in
          (page, find_pages-next n bits number last tmp j inside nothing ∙ e)
    ]

try_zones-first :
    (n : ℕ) (m : Memory) (number attribute i page : ℕ)
    → let z = m.zones_struct i in
      let start = z.zone_start_address / 2 ^ 21 in
      let last = z.zone_end_address / 2 ^ 21 in
      ltb z.page_free_count number ≡ false
      → find_pages (last + 1 - start) m.bits_map number last (64 - start % 64) start ≡ some page
      → try_zones (suc n) m number attribute i ≡ found page (take_pages number m i attribute page)
unfolding try_zones
try_zones-first n m number attribute i page enough e = rw (enough, e, try_zones) refl

alloc_pages-normal :
    (m : Memory) (number flags : ℕ)
    → (leb 64 number || (number == 0)) ≡ false
    → alloc_pages m zone_normal number flags
      ≡ try_zones
          (m.zone_normal_index + 1 - m.zone_dma_index)
          m
          number
          pg_ptable_maped
          m.zone_dma_index
unfolding alloc_pages
alloc_pages-normal m number flags valid = rw (valid, alloc_pages) refl

-- In the first zone that alloc_pages looks at for ZONE_NORMAL, if this zone counts enough free pages: whenever
-- as many pages as are asked for, from 1 to 63, are free from a page of the zone on, alloc_pages returns a
-- page.
pub alloc_pages-finds :
    (m : Memory) (number flags q : ℕ)
    → 1 ≤ number
    → number < 64
    → m.zone_dma_index ≤ m.zone_normal_index
    → AreWords m.bits_map
    → number ≤ (m.zones_struct m.zone_dma_index).page_free_count
    → (m.zones_struct m.zone_dma_index).zone_start_address / 2 ^ 21 ≤ q
    → q ≤ (m.zones_struct m.zone_dma_index).zone_end_address / 2 ^ 21
    → ((l : ℕ) → l < number → used m.bits_map (q + l) ≡ false)
    → (page : ℕ) × (t : Memory) × (alloc_pages m zone_normal number flags ≡ found page t)
alloc_pages-finds m number flags q some_pages small order words enough above below run =
    let i = m.zone_dma_index in
    let z = m.zones_struct i in
    let start = z.zone_start_address / 2 ^ 21 in
    let last = z.zone_end_address / 2 ^ 21 in
    let (page, e) =
      find_pages-finds (last + 1 - start) m.bits_map number last (64 - start % 64) start q words
        small (λ _. refl) (omega arith) run above below in
    let valid : (leb 64 number || (number == 0)) ≡ false = ground arith in
    let zones : m.zone_normal_index + 1 - i ≡ suc (m.zone_normal_index - i) = omega arith in
    (
      page,
      take_pages number m i pg_ptable_maped page,
      alloc_pages-normal m number flags valid
          ∙ (ap (λ (n : ℕ). try_zones n m number pg_ptable_maped i) zones
              ∙ try_zones-first (m.zone_normal_index - i) m number pg_ptable_maped i page
                  (ground arith) e),
    )
