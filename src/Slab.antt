-- ===== src/Slab.antt =====
-- Slabs of objects, kernel/mm/slab.c, with the types of kernel/include/mm.h.
--
-- A slab is named by the address of its `list` member, a bitmap by its address, and a pool by a number: 0
-- to 15 for the entries of kmalloc_cache_size, the address for the others. The words of a bitmap are a
-- function of their index, so that two bitmaps never overlap. A pool's DMA slabs are left out: no code
-- uses them.
pub mod Bits
pub mod Answer
pub mod Init
pub mod Filled
pub mod Fresh
pub mod Take
pub mod Kmalloc
pub mod Pool
pub mod Sizes
mod Tests
use Prim.Native.Nat.{bit_and, bit_or, bit_xor}
use s_os.Base.{
  ℕ, zero, suc, ◌+◌, ◌-◌, ◌*◌, ◌/◌, ◌%◌, ◌^◌, Bool, Option, none, some, ◌==◌, ltb, if◌then◌else◌,
  update,
}
use s_os.ListHeap.{Ptr, Links}
use s_os.Memory.{Memory, inc, dec}

-- `struct Slab_cache`; a constructor or destructor is the address of a function.
pub record SlabCache : Type 0 where
  pub size : ℕ
  pub total_using : ℕ
  pub total_free : ℕ
  pub cache_pool : Ptr
  pub constructor : Option Ptr
  pub destructor : Option Ptr

-- The fields of all slabs, the bitmaps, the pools, and the physical pages.
pub record Heap : Type 0 where
  pub memory : Memory
  pub links : Links
  pub page : Ptr → ℕ
  pub vaddress : Ptr → ℕ
  pub using_count : Ptr → ℕ
  pub free_count : Ptr → ℕ
  pub color_length : Ptr → ℕ
  pub color_count : Ptr → ℕ
  pub color_map : Ptr → Ptr
  pub word : Ptr → ℕ → ℕ
  pub cache : ℕ → SlabCache

-- the words of a slab's bitmap
abbrev pub words : Heap → Ptr → ℕ → ℕ
words s slab = s.word (s.color_map slab)

abbrev pub full_word : ℕ
full_word = 0xffffffffffffffff

abbrev pub set_word : Heap → Ptr → ℕ → ℕ → Heap
set_word s map i w = record s { word = update s.word map (update (s.word map) i w) }

-- `for (j = …; j < color_count; j++)`: the first free bit from `j` on. The index grows with every step, so
-- that `n` steps, where j + n is `count` or more, are all that the loop can make. The index is an `int` in C,
-- which does not overflow where the slab has fewer than 2^31 - 64 objects.
unfoldable pub find_slot : ℕ → (ℕ → ℕ) → ℕ → ℕ → Option ℕ
find_slot zero bits count j = none
find_slot (suc n) bits count j =
    let full = bits (j / 64) == full_word in
    let rest = find_slot n bits count (if full then j + 64 else j + 1) in
    if ltb j count
    then (if full
        then rest
        else if bit_and (bits (j / 64)) (2 ^ (j % 64)) == 0
        then some j
        else rest)
    else none

-- what is done with the bit that is found
unfoldable pub take_slot : Heap → ℕ → Ptr → ℕ → Heap
take_slot s cache slab j =
    let map = s.color_map slab in
    let s1 = set_word s map (j / 64) (bit_or (s.word map (j / 64)) (2 ^ (j % 64))) in
    let c = s1.cache cache in
    record s1 {
      using_count = update s1.using_count slab (inc (s1.using_count slab));
      free_count = update s1.free_count slab (dec (s1.free_count slab));
      cache =
          update s1.cache cache
            (record c { total_using = inc c.total_using; total_free = dec c.total_free });
    }

-- The address of the object of a bit, which a constructor may replace. `call` is what the code behind
-- constructors answers for an object and an argument.
unfoldable pub constructed : (Ptr → ℕ → ℕ → ℕ) → SlabCache → ℕ → ℕ → ℕ
constructed call c object arg = elim (c.constructor) [ none ↦ object | some f ↦ call f object arg ]

-- a pointer that is compared with NULL
abbrev pub pointer : ℕ → Option ℕ
pointer zero = none
pointer (suc n) = some (suc n)

-- `__do_slab_malloc`: the object, or `none` for NULL.
unfoldable pub do_slab_malloc : (Ptr → ℕ → ℕ → ℕ) → Heap → ℕ → Ptr → ℕ → Option ℕ × Heap
do_slab_malloc call s cache slab arg =
    elim (find_slot (s.color_count slab) (words s slab) (s.color_count slab) 0) [
      | none ↦ (none, s)
      | some j ↦ (
        pointer (constructed call (s.cache cache) (s.vaddress slab + (s.cache cache).size * j) arg),
        take_slot s cache slab j,
      )
    ]

-- The first two steps of kfree and slab_free for the object `index` of a slab: the bit is flipped, and the
-- counters follow.
unfoldable pub release_slot : Heap → ℕ → Ptr → ℕ → Heap
release_slot s cache slab index =
    let map = s.color_map slab in
    let s1 = set_word s map (index / 64) (bit_xor (s.word map (index / 64)) (2 ^ (index % 64))) in
    let c = s1.cache cache in
    record s1 {
      using_count = update s1.using_count slab (dec (s1.using_count slab));
      free_count = update s1.free_count slab (inc (s1.free_count slab));
      cache =
          update s1.cache cache
            (record c { total_using = dec c.total_using; total_free = inc c.total_free });
    }

-- `memset(color_map, 0xff, length)` for a length of whole words
unfoldable pub fill_map : Heap → Ptr → ℕ → Heap
fill_map s map length = record s {
  word = update s.word map (λ i. if ltb i (length / 8) then full_word else s.word map i);
}

-- `for (i = …; i < color_count; i++) *(color_map + (i >> 6)) ^= 1UL << i % 64`, with `n` steps to go. The index
-- is an `int`, so that `i + n` is below 2^31 wherever C defines the loop.
unfoldable pub flip_bits : ℕ → Heap → Ptr → ℕ → Heap
flip_bits zero s map i = s
flip_bits (suc n) s map i =
    flip_bits n (set_word s map (i / 64) (bit_xor (s.word map (i / 64)) (2 ^ (i % 64)))) map (i + 1)
