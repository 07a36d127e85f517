-- ===== src/Slab/Kmalloc.antt =====
-- The general allocator: kmalloc_create, kmalloc and kfree of kernel/mm/mm.c, and get_new_Slab and
-- __do_Slab_destory of kernel/mm/slab.c.
--
-- kmalloc and kfree call each other through the slabs of large objects, whose descriptions are small
-- objects. `depth` bounds that nesting; `none` is a run that C leaves undefined, such as one where
-- alloc_pages returns nothing, or one that goes past the depth or the fuel.
use s_os.Memory.Init.{pg_kernel, page_2m_size}
use s_os.Base.{
  ℕ, zero, suc, ◌+◌, ◌-◌, ◌*◌, ◌/◌, ◌%◌, ◌^◌, Bool, Option, none, some, ◌==◌, leb, ltb, ◌||◌, ◌&&◌,
  not, if◌then◌else◌, update,
}
use s_os.Base.Monad.{◌>>=◌}
use s_os.ListHeap.{Ptr, list_init, list_add_to_before, list_del, list_next}
use s_os.Memory.{
  found, null, no_return, page_init, page_clean, alloc_pages, free_pages, zone_normal,
}
use s_os.Slab.{Heap, do_slab_malloc, release_slot, fill_map, flip_bits}

-- what a call that returns a pointer leaves
abbrev pub Outcome : Type 0
Outcome = Option (Option Ptr × Heap)

-- `Phy_To_Virt`
abbrev pub phy_to_virt : ℕ → ℕ
phy_to_virt a = (a + 0xffff800000000000) % 2 ^ 64

-- the length of a bitmap in bytes, for `count` objects
abbrev pub map_length : ℕ → ℕ
map_length count = (count + 63) / 64 * 8

-- the sizes of `struct Slab` and `struct Slab_cache`
abbrev pub slab_size : ℕ
slab_size = 72

-- the fields of a slab that get_new_Slab and kmalloc_create set; the links are set apart
unfoldable pub describe : Heap → Ptr → ℕ → ℕ → ℕ → Ptr → Heap
describe s slab page count length map = record s {
  page = update s.page slab page;
  vaddress = update s.vaddress slab (phy_to_virt (s.memory.pages_struct page).phy_address);
  using_count = update s.using_count slab 0;
  free_count = update s.free_count slab count;
  color_count = update s.color_count slab count;
  color_length = update s.color_length slab length;
  color_map = update s.color_map slab map;
}

-- The bitmap is filled, and the bits of the objects are cleared by flipping them.
unfoldable pub prepare_map : Heap → Ptr → Heap
prepare_map s slab =
    let map = s.color_map slab in
    flip_bits (s.color_count slab) (fill_map s map (s.color_length slab)) map 0

-- get_new_Slab, behind the allocation of its page
unfoldable pub new_slab_map :
    (ℕ → Heap → Outcome) → (ℕ → Heap → Option (ℕ × Heap)) → ℕ → Ptr → ℕ → Heap → Outcome
new_slab_map alloc free size slab page s =
    let count = page_2m_size / size in
    let s1 = describe s slab page count (map_length count) 0 in
    do
      (map, s2) ← alloc (map_length count) s1
      elim map [
        | some m ↦
            some
              (some slab, prepare_map (record s2 { color_map = update s2.color_map slab m }) slab)
        | none ↦ free slab (record s2 { memory = free_pages s2.memory (some page) 1 }) >>= λ r.
            some (none, r.1)
      ]

-- `memset(slab, 0, sizeof(struct Slab))`; the links are set right behind it.
unfoldable pub clear_slab : Heap → Ptr → Heap
clear_slab s slab = record s {
  page = update s.page slab 0;
  vaddress = update s.vaddress slab 0;
  using_count = update s.using_count slab 0;
  free_count = update s.free_count slab 0;
  color_length = update s.color_length slab 0;
  color_count = update s.color_count slab 0;
  color_map = update s.color_map slab 0;
}

-- get_new_Slab, behind the allocation of the slab itself
unfoldable pub new_slab_page :
    (ℕ → Heap → Outcome) → (ℕ → Heap → Option (ℕ × Heap)) → ℕ → Ptr → Heap → Outcome
new_slab_page alloc free size slab s =
    let s1 = record (clear_slab s slab) { links = list_init s.links slab } in
    elim (alloc_pages s1.memory zone_normal 1 0) [
      | null ↦ free slab s1 >>= λ r. some (none, r.1)
      | no_return ↦ none
      | found page m ↦
          new_slab_map alloc free size slab page (record s1 { memory = page_init m page pg_kernel })
    ]

unfoldable pub get_new_slab :
    (ℕ → Heap → Outcome) → (ℕ → Heap → Option (ℕ × Heap)) → ℕ → Heap → Outcome
get_new_slab alloc free size s = do
  (slab, s1) ← alloc slab_size s
  elim slab [ none ↦ some (none, s1) | some p ↦ new_slab_page alloc free size p s1 ]

-- kmalloc_create for the sizes 32 to 512: the slab and its bitmap are at the end of the page. The length
-- of the bitmap is computed from the count that stands in the page's memory before it is set.
unfoldable pub create_small : ℕ → Heap → Outcome
create_small size s = elim (alloc_pages s.memory zone_normal 1 0) [
  | null ↦ some (none, s)
  | no_return ↦ none
  | found page m ↦
      let s1 = record s { memory = page_init m page pg_kernel } in
      let address = phy_to_virt (s1.memory.pages_struct page).phy_address in
      let slab = address + page_2m_size - (slab_size + page_2m_size / size / 8) in
      let count = (page_2m_size - page_2m_size / size / 8 - slab_size) / size in
      let s2 =
        prepare_map
          (describe s1 slab page count (map_length (s1.color_count slab)) (slab + slab_size))
          slab in
      some (some slab, record s2 { links = list_init s2.links slab })
]

-- The sizes that the `switch` of kmalloc_create treats as small.
abbrev pub is_small : ℕ → Bool
is_small size = (size == 32) || (size == 64) || (size == 128) || (size == 256) || (size == 512)

-- The other sizes that it knows; 65536 is not among them.
abbrev pub is_large : ℕ → Bool
is_large size =
    (size == 1024)
    || (size == 2048)
    || (size == 4096)
    || (size == 8192)
    || (size == 16384)
    || (size == 32768)
    || (size == 131072)
    || (size == 262144)
    || (size == 524288)
    || (size == 1048576)

unfoldable pub kmalloc_create :
    (ℕ → Heap → Outcome) → (ℕ → Heap → Option (ℕ × Heap)) → ℕ → Heap → Outcome
kmalloc_create alloc free size s =
    if is_small size
    then create_small size s
    else if is_large size
    then get_new_slab alloc free size s
    else some (none, s)

-- the sizes of `kmalloc_cache_size`
abbrev pub pool_size : ℕ → ℕ
pool_size i = 2 ^ (i + 5)

-- the loop over the pools, from `i` on: the first one whose objects are large enough
unfoldable pub find_pool : ℕ → Heap → ℕ → ℕ → ℕ
find_pool zero s size i = i
find_pool (suc n) s size i =
    let rest = find_pool n s size (i + 1) in if leb size (s.cache i).size then i else rest

-- The loop over the slabs of a pool: the first one with a free object, or the pool's first slab again.
unfoldable pub find_free : ℕ → Heap → Ptr → Ptr → Option Ptr
find_free zero s pool slab = none
find_free (suc f) s pool slab =
    let following = list_next s.links slab in
    let rest = find_free f s pool following in
    if s.free_count slab == 0 then (if following == pool then some pool else rest) else some slab

-- the slab that kmalloc takes the object from, a new one if the pool has no free object
unfoldable pub choose_slab : (ℕ → Heap → Outcome) → ℕ → Heap → ℕ → Outcome
choose_slab create f s i =
    let c = s.cache i in
    let old : Outcome = find_free f s c.cache_pool c.cache_pool >>= λ p. some (some p, s) in
    let fresh : Outcome = (do
      (slab, s1) ← create c.size s
      elim slab [
        | none ↦ some (none, s1)
        | some p ↦
            let c1 = s1.cache i in
            some (
              some p,
              record s1 {
                cache =
                    update s1.cache i
                      (record c1 { total_free = (c1.total_free + s1.color_count p) % 2 ^ 64 });
                links = list_add_to_before s1.links c1.cache_pool p;
              },
            )
      ]) in
    if c.total_free == 0 then fresh else old

-- The pools of kmalloc have no constructor, so that the code behind one is never called.
unfoldable pub kmalloc_with : (ℕ → Heap → Outcome) → ℕ → ℕ → Heap → Outcome
kmalloc_with create f size s =
    let i = find_pool 16 s size 0 in
    let rest : Outcome = (do
      (slab, s1) ← choose_slab create f s i
      elim slab [
        | none ↦ some (none, s1)
        | some p ↦ some (do_slab_malloc (λ c o a. o) s1 i p 0)
      ]) in
    if ltb 1048576 size then some (none, s) else rest

-- the loop over the slabs of a pool: the one at that address
unfoldable pub find_slab : ℕ → Heap → ℕ → Ptr → Ptr → Option (Option Ptr)
find_slab zero s base pool slab = none
find_slab (suc f) s base pool slab =
    let following = list_next s.links slab in
    let rest = find_slab f s base pool following in
    if s.vaddress slab == base
    then some (some slab)
    else if following == pool
    then some none
    else rest

unfoldable pub do_slab_destory : (ℕ → Heap → Option (ℕ × Heap)) → Heap → Ptr → Option Heap
do_slab_destory free s slab = do
  (r, s1) ← free (s.color_map slab) (record s { links = list_del s.links slab })
  (r', s2) ← free slab (record s1 {
    memory = free_pages (page_clean s1.memory (s1.page slab)) (some (s1.page slab)) 1;
  })
  some s2

-- the third step of kfree
unfoldable pub shrink : (ℕ → Heap → Option (ℕ × Heap)) → Heap → ℕ → Ptr → Option (ℕ × Heap)
shrink free s i slab =
    let c = s.cache i in
    let s1 = record s {
      cache =
          update s.cache i
            (record c { total_free = (c.total_free + (2 ^ 64 - s.color_count slab)) % 2 ^ 64 });
    } in
    let small = record s1 {
      links = list_del s1.links slab;
      memory = free_pages (page_clean s1.memory (s1.page slab)) (some (s1.page slab)) 1;
    } in
    let large = do_slab_destory free s1 slab >>= λ t. some (1, t) in
    if (s.using_count slab == 0)
      && (leb (s.color_count slab * 3 / 2) c.total_free && not (slab == c.cache_pool))
    then (if is_small c.size then some (1, small) else large)
    else some (1, s)

-- kfree for the pool `i`, with `n` more pools behind it
unfoldable pub kfree_pools :
    (ℕ → Heap → Option (ℕ × Heap)) → ℕ → ℕ → ℕ → ℕ → Heap → Option (ℕ × Heap)
kfree_pools free f zero i address s = some (0, s)
kfree_pools free f (suc n) i address s =
    let c = s.cache i in
    let base = address / page_2m_size * page_2m_size in
    let rest = kfree_pools free f n (i + 1) address s in
    do
      slab ← find_slab f s base c.cache_pool c.cache_pool
      elim slab [
        | none ↦ rest
        | some p ↦ shrink free (release_slot s i p ((address - s.vaddress p) / c.size)) i p
      ]

-- `none` where the depth is used up
unfoldable pub kfree : ℕ → ℕ → ℕ → Heap → Option (ℕ × Heap)
kfree zero f address s = none
kfree (suc depth) f address s = kfree_pools (kfree depth f) f 16 0 address s

unfoldable pub kmalloc : ℕ → ℕ → ℕ → Heap → Outcome
kmalloc zero f size s = none
kmalloc (suc depth) f size s =
    kmalloc_with (kmalloc_create (kmalloc depth f) (kfree depth f)) f size s
