-- ===== src/Paging/Walk.antt =====
-- What the processor finds in the page tables that kernel/mm/mm.c fills.
use Prim.Native.Nat.{bit_or}
use s_os.Base.{
  ℕ, ◌+◌, ◌*◌, ◌/◌, ◌%◌, ◌^◌, ◌≡◌, ◌<◌, Option, none, some, ◌==◌, ◌&&◌, if◌then◌else◌, arith,
}
use s_os.Base.Bits.{test_bit, test-or, test-shr, test_above, eq_of_bits, or-lt}
use s_os.Paging.{index, entry_of}

-- An address of 48 bits is translated through three tables, whose entries must be present, to a page of
-- 2 MB; `none` is a page fault.
unfoldable pub translate : (ℕ → ℕ) → ℕ → ℕ → Option ℕ
translate word cr3 a =
    let e4 = word (entry_of cr3 39 a) in
    let e3 = word (entry_of e4 30 a) in
    let e2 = word (entry_of e3 21 a) in
    if (e4 % 2 == 1) && ((e3 % 2 == 1) && ((e2 % 2 == 1) && (e2 / 128 % 2 == 1)))
    then some (e2 % 2 ^ 52 / 2 ^ 21 * 2 ^ 21 + a % 2 ^ 21)
    else none

-- an attribute of less than 2^21 is added to the address of a page
pub page_entry :
    (address attr : ℕ)
    → address < 2 ^ 52
    → address % 2 ^ 21 ≡ 0
    → attr < 2 ^ 21
    → (bit_or address attr % 2 ^ 52 / 2 ^ 21 * 2 ^ 21 ≡ address)
page_entry address attr small aligned low =
    let e = bit_or address attr in
    let bound : e < 2 ^ 52 = or-lt 52 address attr small (omega arith) in
    let high : e / 2 ^ 21 ≡ address / 2 ^ 21 =
      eq_of_bits 31 (e / 2 ^ 21) (address / 2 ^ 21) (omega arith) (omega arith) (λ k h. ground (
        arith,
        test-shr 21 e k,
        test-shr 21 address k,
        test-or address attr (k + 21),
        test_above 21 attr (k + 21),
      )) in
    omega arith

pub dir_entry : (table attr : ℕ) → attr % 2 ≡ 1 → bit_or table attr % 2 ≡ 1
unfolding test_bit
dir_entry table attr odd = ground (arith, test-or table attr 0)

page_bit : (address attr : ℕ) → attr / 128 % 2 ≡ 1 → bit_or address attr / 128 % 2 ≡ 1
unfolding test_bit
page_bit address attr set =
    ground (arith, test-or address attr 7, test-shr 7 (bit_or address attr) 0, test-shr 7 attr 0)

-- The three entries for an address, as the processor reads them.
pub record IsMapped (word : ℕ → ℕ) (cr3 a e4 e3 address attr : ℕ) : Type 0 where
  pub level4 : word (entry_of cr3 39 a) ≡ e4
  pub level3 : word (entry_of e4 30 a) ≡ e3
  pub level2 : word (entry_of e3 21 a) ≡ bit_or address attr
  pub present4 : e4 % 2 ≡ 1
  pub present3 : e3 % 2 ≡ 1

pub mapped-translate :
    (word : ℕ → ℕ) (cr3 a e4 e3 address attr off : ℕ)
    → IsMapped word cr3 a e4 e3 address attr
    → address < 2 ^ 52
    → address % 2 ^ 21 ≡ 0
    → attr < 2 ^ 21
    → attr % 2 ≡ 1
    → attr / 128 % 2 ≡ 1
    → a % 2 ^ 21 ≡ 0
    → off < 2 ^ 21
    → translate word cr3 (a + off) ≡ some (address + off)
unfolding translate
mapped-translate word cr3 a e4 e3 address attr off o small aligned low odd page start inside =
    let i4 : index 39 (a + off) ≡ index 39 a = omega arith in
    let i3 : index 30 (a + off) ≡ index 30 a = omega arith in
    let i2 : index 21 (a + off) ≡ index 21 a = omega arith in
    let l4 : word (entry_of cr3 39 (a + off)) ≡ e4 = rw i4 o.level4 in
    let l3 : word (entry_of e4 30 (a + off)) ≡ e3 = rw i3 o.level3 in
    let l2 : word (entry_of e3 21 (a + off)) ≡ bit_or address attr = rw i2 o.level2 in
    rw (l4, l3, l2)
      (ground (
        arith,
        o.present4,
        o.present3,
        dir_entry address attr odd,
        page_bit address attr page,
        page_entry address attr small aligned low,
      ))
