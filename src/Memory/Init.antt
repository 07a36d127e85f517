-- ===== src/Memory/Init.antt =====
-- The memory at the start of the kernel, init_memory of kernel/mm/mm.c, with the types of
-- kernel/include/mm.h and kernel/include/UEFI_boot_param_info.h.
--
-- A page that no zone has counts as one of zone 0 here; in C its zone is NULL.
pub mod Zones
pub mod Free
use Prim.Native.Nat.{bit_or, bit_xor}
use s_os.Base.{
  ℕ, zero, suc, ◌+◌, ◌-◌, ◌*◌, ◌/◌, ◌%◌, ◌^◌, Bool, ◌==◌, ltb, leb, ◌||◌, ◌&&◌, if◌then◌else◌,
  update, Option, none, some, true, not,
}
use s_os.Base.Monad.{◌>>=◌}
use s_os.Memory.{
  Memory, Page, Zone, inc, dec, set_page, set_zone, page_bit, page_init, pg_ptable_maped,
}

abbrev pub pg_kernel_init : ℕ
pg_kernel_init = 2

abbrev pub pg_kernel : ℕ
pg_kernel = 8

abbrev pub page_2m_size : ℕ
page_2m_size = 2 ^ 21

-- `Virt_To_Phy`
abbrev pub virt_to_phy : ℕ → ℕ
virt_to_phy a = (a + (2 ^ 64 - 0xffff800000000000)) % 2 ^ 64

-- the next multiple of 2 MB, and of 4 KB
abbrev pub page_2m_align : ℕ → ℕ
page_2m_align a = (a + (page_2m_size - 1)) % 2 ^ 64 / page_2m_size * page_2m_size

abbrev pub page_4k_align : ℕ → ℕ
page_4k_align a = (a + 4095) % 2 ^ 64 / 4096 * 4096

-- `struct E820`
pub record E820 : Type 0 where
  pub address : ℕ
  pub length : ℕ
  pub type : ℕ

-- The loop that copies the entries at `p` into the table, with `n` steps to go: the table and
-- e820_length, which is the index of the last entry. `none` is a write behind the 32 entries of the table,
-- which C leaves undefined.
unfoldable pub copy_e820 : ℕ → (ℕ → E820) → (ℕ → E820) → ℕ → ℕ → Option ((ℕ → E820) × ℕ)
copy_e820 zero p table last i = some (table, last)
copy_e820 (suc n) p table last i =
    let entry : E820 = record {
      address = ((table i).address + (p i).address) % 2 ^ 64;
      length = ((table i).length + (p i).length) % 2 ^ 64;
      type = (p i).type;
    } in
    let next = p (i + 1) in
    let rest = copy_e820 n p (update table i entry) i (i + 1) in
    if leb 32 i
    then none
    else if ltb 4 next.type || ltb next.type 1 || (next.length == 0)
    then some (update table i entry, i)
    else rest

-- the 2 MB pages that lie in an entry, as addresses
abbrev pub seg_start : E820 → ℕ
seg_start p = page_2m_align p.address

abbrev pub seg_end : E820 → ℕ
seg_end p = (p.address + p.length) % 2 ^ 64 / page_2m_size * page_2m_size

-- `phymmend >> PAGE_2M_SHIFT`, the number of pages up to the end of the last entry
abbrev pub memory_pages : (ℕ → E820) → ℕ → ℕ
memory_pages table last = ((table last).address + (table last).length) % 2 ^ 64 / page_2m_size

abbrev pub is_usable : E820 → Bool
is_usable p = (p.type == 1) && ltb (seg_start p) (seg_end p)

-- the body of the loop over a zone's pages
unfoldable pub add_page : Memory → ℕ → ℕ → ℕ → Memory
add_page m z start j =
    let address = start + page_2m_size * j in
    let page = start / page_2m_size + j in
    let b = address / page_2m_size in
    let m1 =
      set_page m page
        (record { zone_struct = z; phy_address = address; attribute = 0; reference_count = 0 }) in
    record m1 {
      bits_map = update m1.bits_map (b / 64) (bit_xor (m1.bits_map (b / 64)) (2 ^ (b % 64)));
    }

-- that loop, with `n` pages to go
unfoldable pub add_pages : ℕ → Memory → ℕ → ℕ → ℕ → Memory
add_pages zero m z start j = m
add_pages (suc n) m z start j = add_pages n (add_page m z start j) z start (j + 1)

-- the zone of a usable entry, and its pages
unfoldable pub add_zone : Memory → E820 → Memory
add_zone m p =
    let pages = (seg_end p - seg_start p) / page_2m_size in
    let m1 = set_zone m m.zones_size (record {
      zone_start_address = seg_start p;
      zone_end_address = seg_end p;
      page_using_count = 0;
      page_free_count = pages;
      total_pages_link = 0;
    }) in
    add_pages pages (record m1 { zones_size = m.zones_size + 1 }) m.zones_size (seg_start p) 0

-- the loop over the entries, with `n` to go
unfoldable pub add_zones : ℕ → Memory → (ℕ → E820) → ℕ → Memory
add_zones zero m table i = m
add_zones (suc n) m table i =
    let m1 = if is_usable (table i) then add_zone m (table i) else m in add_zones n m1 table (i + 1)

-- the loop that sets ZONE_UNMAPED_INDEX
unfoldable pub find_unmaped : ℕ → Memory → ℕ → ℕ → ℕ
find_unmaped zero m i index = index
find_unmaped (suc n) m i index =
    let above = leb 0x100000000 (m.zones_struct i).zone_start_address && (index == 0) in
    find_unmaped n m (i + 1) (if above then i else index)

-- The bit of a page is set, and its zone counts it as used.
unfoldable pub reserve_page : Memory → ℕ → Memory
reserve_page m page =
    let b = page_bit m page in
    let z = (m.pages_struct page).zone_struct in
    let m1 = record m {
      bits_map = update m.bits_map (b / 64) (bit_or (m.bits_map (b / 64)) (2 ^ (b % 64)));
    } in
    set_zone m1 z (record (m1.zones_struct z) {
      page_using_count = inc (m1.zones_struct z).page_using_count;
      page_free_count = dec (m1.zones_struct z).page_free_count;
    })

-- the loop over the pages of the kernel, with `n` pages to go
unfoldable pub keep_kernel : ℕ → Memory → ℕ → Memory
keep_kernel zero m j = m
keep_kernel (suc n) m j =
    keep_kernel n (reserve_page (page_init m j (pg_ptable_maped + pg_kernel_init + pg_kernel)) j)
      (j + 1)

-- The sizes and places of the bitmap and the arrays, for `pages` pages: the length of the bitmap in bytes,
-- and where the array of zones begins.
abbrev pub bits_length : ℕ → ℕ
bits_length pages = (pages + 63) / 8 / 8 * 8

abbrev pub zones_address : ℕ → ℕ → ℕ
zones_address end_brk pages =
    page_4k_align
      (page_4k_align (page_4k_align end_brk + bits_length pages) + (pages * 40 + 7) / 8 * 8)

-- All bits are set, and the pages and the first 10 zones are zero.
unfoldable pub blank : Memory → ℕ → Memory
blank m pages = record m {
  bits_map = λ w. if ltb w (bits_length pages / 8) then 0xffffffffffffffff else m.bits_map w;
  pages_struct = λ q.
      if ltb q pages
      then record { zone_struct = 0; phy_address = 0; attribute = 0; reference_count = 0 }
      else m.pages_struct q;
  zones_struct = λ z.
      if ltb z 10
      then record {
        zone_start_address = 0;
        zone_end_address = 0;
        page_using_count = 0;
        page_free_count = 0;
        total_pages_link = 0;
      }
      else m.zones_struct z;
  zones_size = 0;
}

-- init_memory behind the copy of the entries, up to the loop over the kernel's pages
unfoldable pub init_zones : Memory → (ℕ → E820) → ℕ → Memory
init_zones m table last =
    let pages = memory_pages table last in
    let m1 = add_zones (last + 1) (blank m pages) table 0 in
    let m2 = set_page m1 0 (record {
      zone_struct = 0;
      phy_address = 0;
      attribute = pg_ptable_maped + pg_kernel_init + pg_kernel;
      reference_count = 1;
    }) in
    record m2 {
      zone_dma_index = 0;
      zone_normal_index = 0;
      zone_unmaped_index = find_unmaped m2.zones_size m2 0 0;
    }

-- end_of_struct, with `zones` zones
abbrev pub struct_end : ℕ → (ℕ → E820) → ℕ → ℕ → ℕ
struct_end end_brk table last zones =
    (zones_address end_brk (memory_pages table last) + (zones * 80 + 7) / 8 * 8 + 8 * 32) / 8 * 8

-- the table of entries in the kernel's zeroed data
abbrev pub no_entries : ℕ → E820
no_entries i = record { address = 0; length = 0; type = 0 }

-- Do the usable ones of the `n` entries from `i` on end inside the `pages` pages of the arrays?
unfoldable pub are_inside : ℕ → (ℕ → E820) → ℕ → ℕ → Bool
are_inside zero table i pages = true
are_inside (suc n) table i pages =
    (not (is_usable (table i)) || leb (seg_end (table i) / page_2m_size) pages)
    && are_inside n table (i + 1) pages

-- init_memory, for `count` entries at `p` and an empty table: the memory, and end_of_struct. `none` is a
-- run that C leaves undefined, since it writes behind the table or behind the arrays of the pages. The
-- flush of the TLB is left out.
unfoldable pub init_memory : Memory → (ℕ → E820) → ℕ → ℕ → Option (Memory × ℕ)
init_memory m p count end_brk = do
  (table, last) ← copy_e820 count p no_entries 0 0
  let m1 = init_zones m table last in
      let e = struct_end end_brk table last m1.zones_size in
      if are_inside (last + 1) table 0 (memory_pages table last)
      then some (keep_kernel (virt_to_phy e / page_2m_size) m1 1, e)
      else none
