-- ===== src/Memory.antt =====
-- Physical pages, kernel/mm/mm.c, with the types of kernel/include/mm.h.
--
-- A page and a zone are named by their index in `pages_struct` and `zones_struct`. The fields that only
-- init_memory sets and prints, and the age of a page, are left out.
pub mod Runs
pub mod Alloc
pub mod Init
pub mod Search
pub mod Sample
pub mod Bitmap
mod Tests
use Prim.Native.Nat.{bit_and, bit_or}
use s_os.Base.{
  ℕ, zero, suc, ◌+◌, ◌-◌, ◌*◌, ◌/◌, ◌%◌, ◌^◌, Bool, Option, none, some, ◌==◌, leb, ltb, ◌||◌, not,
  ◌&&◌, if◌then◌else◌, update,
}

pub record Page : Type 0 where
  pub zone_struct : ℕ
  pub phy_address : ℕ
  pub attribute : ℕ
  pub reference_count : ℕ

pub record Zone : Type 0 where
  pub zone_start_address : ℕ
  pub zone_end_address : ℕ
  pub page_using_count : ℕ
  pub page_free_count : ℕ
  pub total_pages_link : ℕ

pub record Memory : Type 0 where
  pub bits_map : ℕ → ℕ
  pub pages_struct : ℕ → Page
  pub zones_struct : ℕ → Zone
  pub zones_size : ℕ
  pub zone_dma_index : ℕ
  pub zone_normal_index : ℕ
  pub zone_unmaped_index : ℕ

abbrev pub pg_ptable_maped : ℕ
pg_ptable_maped = 1

abbrev pub pg_shared : ℕ
pg_shared = 16

-- `x++` and `x--` of an `unsigned long`
abbrev pub inc : ℕ → ℕ
inc x = (x + 1) % 2 ^ 64

abbrev pub dec : ℕ → ℕ
dec x = (x + (2 ^ 64 - 1)) % 2 ^ 64

abbrev pub set_page : Memory → ℕ → Page → Memory
set_page m p page = record m { pages_struct = update m.pages_struct p page }

abbrev pub set_zone : Memory → ℕ → Zone → Memory
set_zone m z zone = record m { zones_struct = update m.zones_struct z zone }

-- the zone's count of references, after a change
abbrev pub link : Memory → ℕ → (ℕ → ℕ) → Memory
link m z f =
    set_zone m z
      (record (m.zones_struct z) { total_pages_link = f (m.zones_struct z).total_pages_link })

unfoldable pub page_init : Memory → ℕ → ℕ → Memory
page_init m page flags =
    let p = m.pages_struct page in
    let attribute = bit_or p.attribute flags in
    if (p.reference_count == 0) || not (bit_and attribute pg_shared == 0)
    then link
        (set_page m page
          (record p { attribute = attribute; reference_count = inc p.reference_count }))
        p.zone_struct inc
    else set_page m page (record p { attribute = attribute })

unfoldable pub page_clean : Memory → ℕ → Memory
page_clean m page =
    let p = m.pages_struct page in
    let count = dec p.reference_count in
    link
      (set_page m page (record p {
        reference_count = count;
        attribute = if count == 0 then bit_and p.attribute pg_ptable_maped else p.attribute;
      }))
      p.zone_struct dec

-- `none` is a null pointer, for which the result is 0.
unfoldable pub get_page_attribute : Memory → Option ℕ → ℕ
get_page_attribute m none = 0
get_page_attribute m (some page) = (m.pages_struct page).attribute

unfoldable pub set_page_attribute : Memory → Option ℕ → ℕ → ℕ × Memory
set_page_attribute m none flags = (0, m)
set_page_attribute m (some page) flags =
    (1, set_page m page (record (m.pages_struct page) { attribute = flags }))

-- the bit of a page in the bitmap: its physical address in units of 2 MB
abbrev pub page_bit : Memory → ℕ → ℕ
page_bit m page = (m.pages_struct page).phy_address / 2 ^ 21

-- The 64 bits of the bitmap from bit `k` of the word `w` on.
unfoldable pub window : (ℕ → ℕ) → ℕ → ℕ → ℕ
window bits w k =
    if k == 0 then bits w else bit_or (bits w / 2 ^ k) (bits (w + 1) * 2 ^ (64 - k) % 2 ^ 64)

-- `for (k = …; k < 64; k++)`, with `n` steps to go: the first `k` from which `number` bits are clear
unfoldable pub find_bit : ℕ → (ℕ → ℕ) → ℕ → ℕ → ℕ → Option ℕ
find_bit zero bits w number k = none
find_bit (suc n) bits w number k =
    let rest = find_bit n bits w number (k + 1) in
    if bit_and (window bits w k) (2 ^ number - 1) == 0 then some k else rest

-- `for (j = …; j <= end; …)`. The index grows with every step, so that `n` steps, where j + n is above
-- `end`, are all that the loop can make.
unfoldable pub find_pages : ℕ → (ℕ → ℕ) → ℕ → ℕ → ℕ → ℕ → Option ℕ
find_pages zero bits number last tmp j = none
find_pages (suc n) bits number last tmp j =
    let rest = find_pages n bits number last tmp (j + (if j % 64 == 0 then 64 else tmp)) in
    if leb j last
    then elim (find_bit (64 - j % 64) bits (j / 64) number (j % 64)) [
      | none ↦ rest
      | some k ↦ some (j + k - j % 64)
    ]
    else none

-- the body of the loop over the pages that are found
unfoldable pub take_page : Memory → ℕ → ℕ → ℕ → Memory
take_page m z attribute page =
    let b = page_bit m page in
    let zone = m.zones_struct z in
    let m1 = record m {
      bits_map = update m.bits_map (b / 64) (bit_or (m.bits_map (b / 64)) (2 ^ (b % 64)));
    } in
    let m2 = set_zone m1 z (record zone {
      page_free_count = dec zone.page_free_count;
      page_using_count = inc zone.page_using_count;
    }) in
    set_page m2 page (record (m2.pages_struct page) { attribute = attribute })

-- `number` pages from `page` on, in order
unfoldable pub take_pages : ℕ → Memory → ℕ → ℕ → ℕ → Memory
take_pages zero m z attribute page = m
take_pages (suc n) m z attribute page =
    take_pages n (take_page m z attribute page) z attribute (page + 1)

-- What alloc_pages returns: a page, NULL, or, where every zone has too few free pages, whatever stands in
-- the register: the source has no `return` there.
pub data Result : Type 0 where
  found : ℕ → Memory → Result
  null : Result
  no_return : Result

-- The loop over the zones `i`, …, `i + n - 1`.
unfoldable pub try_zones : ℕ → Memory → ℕ → ℕ → ℕ → Result
try_zones zero m number attribute i = no_return
try_zones (suc n) m number attribute i =
    let rest = try_zones n m number attribute (i + 1) in
    let z = m.zones_struct i in
    let start = z.zone_start_address / 2 ^ 21 in
    let last = z.zone_end_address / 2 ^ 21 in
    if ltb z.page_free_count number
    then rest
    else elim (find_pages (last + 1 - start) m.bits_map number last (64 - start % 64) start) [
      | none ↦ null
      | some page ↦ found page (take_pages number m i attribute page)
    ]

abbrev pub zone_dma : ℕ
zone_dma = 1

abbrev pub zone_normal : ℕ
zone_normal = 2

abbrev pub zone_unmaped : ℕ
zone_unmaped = 4

-- A negative `number` is rejected like 0. `page_flags` has no effect.
unfoldable pub alloc_pages : Memory → ℕ → ℕ → ℕ → Result
alloc_pages m zone_select number page_flags =
    if leb 64 number || (number == 0)
    then null
    else if zone_select == zone_dma
    then try_zones (m.zone_dma_index + 1) m number pg_ptable_maped 0
    else if zone_select == zone_normal
    then try_zones (m.zone_normal_index + 1 - m.zone_dma_index) m number pg_ptable_maped
        m.zone_dma_index
    else if zone_select == zone_unmaped
    then try_zones (m.zones_size - m.zone_unmaped_index) m number 0 m.zone_unmaped_index
    else null

-- the body of the loop of free_pages
unfoldable pub give_page : Memory → ℕ → Memory
give_page m page =
    let b = page_bit m page in
    let p = m.pages_struct page in
    let zone = m.zones_struct p.zone_struct in
    let m1 = record m {
      bits_map =
          update m.bits_map (b / 64) (bit_and (m.bits_map (b / 64)) (2 ^ 64 - 1 - 2 ^ (b % 64)));
    } in
    let m2 = set_zone m1 p.zone_struct (record zone {
      page_free_count = inc zone.page_free_count;
      page_using_count = dec zone.page_using_count;
    }) in
    set_page m2 page (record p { attribute = 0 })

unfoldable pub give_pages : ℕ → Memory → ℕ → Memory
give_pages zero m page = m
give_pages (suc n) m page = give_pages n (give_page m page) (page + 1)

-- Nothing happens for a null page or a number that alloc_pages rejects too.
unfoldable pub free_pages : Memory → Option ℕ → ℕ → Memory
free_pages m none number = m
free_pages m (some page) number =
    if leb 64 number || (number == 0) then m else give_pages number m page
