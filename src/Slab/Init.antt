-- ===== src/Slab/Init.antt =====
-- The pools of kmalloc at the start of the kernel: kmalloc_slab_init of kernel/mm/slab.c.
--
-- `e` is memory_management_struct.end_of_struct, the first address that is not in use.
pub mod Pools
use Prim.Native.Nat.{bit_or}
use s_os.Memory.Init.{
  pg_kernel, page_2m_size, pg_kernel_init, virt_to_phy, page_2m_align, reserve_page,
}
use s_os.Base.{
  ℕ, zero, suc, ◌+◌, ◌-◌, ◌*◌, ◌/◌, ◌%◌, ◌^◌, Bool, ◌==◌, ltb, leb, if◌then◌else◌, update,
}
use s_os.ListHeap.{Ptr, list_init}
use s_os.Memory.{Memory, Page, Zone, inc, dec, set_zone, page_bit, page_init, pg_ptable_maped}
use s_os.Slab.{Heap, SlabCache}
use s_os.Slab.Kmalloc.{map_length, slab_size, prepare_map}

-- where the bitmap of the slab at `e` is, and where the next slab is
abbrev pub map_address : ℕ → ℕ
map_address e = e + slab_size + 8 * 10

abbrev pub next_slab : ℕ → ℕ → ℕ
next_slab e count = (map_address e + map_length count + 8 * 10) / 8 * 8

-- the body of the first loop: the slab of the pool `i`, and where the next one is
unfoldable pub init_pool : Heap → ℕ → ℕ → Heap
init_pool s i e =
    let count = page_2m_size / (s.cache i).size in
    let s1 = record s {
      cache = update s.cache i (record (s.cache i) { cache_pool = e });
      links = list_init s.links e;
      using_count = update s.using_count e 0;
      free_count = update s.free_count e count;
      color_length = update s.color_length e (map_length count);
      color_count = update s.color_count e count;
      color_map = update s.color_map e (map_address e);
    } in
    let s2 = prepare_map s1 e in
    record s2 {
      cache =
          update s2.cache i
            (record (s2.cache i) { total_free = s2.color_count e; total_using = 0 });
    }

-- the first loop, with `n` pools to go
unfoldable pub init_pools : ℕ → Heap → ℕ → ℕ → Heap × ℕ
init_pools zero s i e = (s, e)
init_pools (suc n) s i e =
    init_pools n (init_pool s i e) (i + 1) (next_slab e (page_2m_size / (s.cache i).size))

-- what both other loops do with a page
unfoldable pub keep_page : Memory → ℕ → Memory
keep_page m page =
    page_init (reserve_page m page) page (pg_ptable_maped + pg_kernel_init + pg_kernel)

-- the second loop, with `n` pages to go
unfoldable pub keep_pages : ℕ → Memory → ℕ → Memory
keep_pages zero m i = m
keep_pages (suc n) m i = keep_pages n (keep_page m i) (i + 1)

-- the body of the third loop
unfoldable pub place_pool : Heap → ℕ → ℕ → Heap
place_pool s i e =
    let area = page_2m_align (e + page_2m_size * i) in
    let page = virt_to_phy area / page_2m_size in
    let slab = (s.cache i).cache_pool in
    record s {
      memory = keep_page s.memory page;
      page = update s.page slab page;
      vaddress = update s.vaddress slab area;
    }

-- the third loop, with `n` pools to go
unfoldable pub place_pools : ℕ → Heap → ℕ → ℕ → Heap
place_pools zero s i e = s
place_pools (suc n) s i e = place_pools n (place_pool s i e) (i + 1) e

-- The index where the second loop starts, and where it ends. The third loop goes on from there: its first
-- clause is `0`, not `i = 0`.
abbrev pub first_page : ℕ → ℕ
first_page e = page_2m_align (virt_to_phy e) / page_2m_size

abbrev pub last_index : ℕ → ℕ → ℕ
last_index first e =
    if leb first (virt_to_phy e / page_2m_size) then virt_to_phy e / page_2m_size + 1 else first

-- The heap with its pools, and the new end of the memory in use. The result 1 is left out.
unfoldable pub kmalloc_slab_init : Heap → ℕ → Heap × ℕ
kmalloc_slab_init s origin =
    let (s1, e) = init_pools 16 s 0 origin in
    let first = first_page origin in
    let index = last_index first e in
    let s2 = record s1 { memory = keep_pages (index - first) s1.memory first } in
    (place_pools (16 - index) s2 index e, e)
