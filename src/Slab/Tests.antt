-- ===== src/Slab/Tests.antt =====
-- Objects of a slab of 70, of which the first 65 are in use, in the pool for 128 bytes.
use s_os.Base.{
  ℕ, zero, suc, ◌+◌, ◌*◌, ◌≡◌, ◌<◌, refl, true, false, none, some, [], ◌==◌, ◌&&◌, not,
  if◌then◌else◌, arith,
}
use s_os.Base.Bits.{test_bit}
use s_os.Memory.{
  Memory, alloc_pages, take_pages, found, zone_normal, try_zones, find_pages, find_bit, window,
}
use s_os.Memory.Bitmap.{used}
use s_os.Slab.{
  Heap, words, find_slot, take_slot, full_word, do_slab_malloc, release_slot, constructed, pointer,
}
use s_os.Slab.Bits.{count_used}
use s_os.Slab.Init.{kmalloc_slab_init}
use s_os.Slab.Init.Pools.{kmalloc_slab_init-skips}
use s_os.Slab.Take.{IsSlab, Took, do_slab_malloc-IsSlab, release_slot-IsSlab}
use s_os.Slab.Fresh.{IsFresh, KeepsSlab, with_page, get_new_slab-IsFresh}
use s_os.Memory.Sample.{machine}
use s_os.Slab.Kmalloc.{
  get_new_slab, clear_slab, kfree, slab_size, kmalloc_with, find_pool, choose_slab, find_free,
  describe, map_length, kmalloc, pool_size,
}
use s_os.Slab.Sizes.{kmalloc-takes}

abbrev no_pages : Memory
no_pages = record {
  bits_map = λ w. 0;
  pages_struct = λ q. record {
    zone_struct = 0;
    phy_address = q * 0x200000;
    attribute = 0;
    reference_count = 0;
  };
  zones_struct = λ z. record {
    zone_start_address = 0;
    zone_end_address = 0;
    page_using_count = 0;
    page_free_count = 0;
    total_pages_link = 0;
  };
  zones_size = 0;
  zone_dma_index = 0;
  zone_normal_index = 0;
  zone_unmaped_index = 0;
}

abbrev heap : Heap
heap = record {
  memory = no_pages;
  links = record { next = λ a. a; prev = λ a. a };
  page = λ a. 0;
  vaddress = λ a. 5000;
  using_count = λ a. 65;
  free_count = λ a. 5;
  color_length = λ a. 16;
  color_count = λ a. 70;
  color_map = λ a. 200;
  word = λ map i. if i == 0 then full_word else if i == 1 then 1 else 0;
  cache = λ i. record {
    size = pool_size i;
    total_using = 65;
    total_free = 5;
    cache_pool = 100;
    constructor = none;
    destructor = none;
  };
}

-- The same heap with zeros in all fields of the slabs.
abbrev cleared : Heap
cleared = record heap { color_count = λ a. 0; word = λ map i. 0 }

heap-IsSlab : IsSlab heap 100
unfolding count_used used test_bit
heap-IsSlab = record { using = refl; free = refl; small = omega arith }

do_slab_malloc-IsSlab_example :
    (j : ℕ) × (t : Heap) × (j < 70)
    × (used (words heap 100) j ≡ false)
    × (do_slab_malloc (λ c o a. o) heap 2 100 0
        ≡ (pointer (constructed (λ c o a. o) (heap.cache 2) (5000 + 128 * j) 0), t))
    × IsSlab t 100
    × Took heap t 2 100 j
do_slab_malloc-IsSlab_example =
    do_slab_malloc-IsSlab heap 2 100 heap-IsSlab (λ c o a. o) 0 (ground arith)

used_64 : used (words heap 100) 64 ≡ true
unfolding used test_bit
used_64 = refl

release_slot-IsSlab_example :
    IsSlab (release_slot heap 2 100 64) 100
    × ((k : ℕ)
        → used (words (release_slot heap 2 100 64) 100) k
          ≡ (used (words heap 100) k && not (k == 64)))
    × ((release_slot heap 2 100 64).free_count 100 ≡ 6)
release_slot-IsSlab_example = release_slot-IsSlab heap 2 100 heap-IsSlab 64 (omega arith) used_64

-- The slab and the bitmap of a new slab for objects of 2048 bytes are the objects 65 and 66 of a slab.
abbrev roomy : Heap
roomy = record heap { memory = machine }

abbrev first : Heap
first = take_slot roomy 2 100 65

abbrev second : Heap
second = take_slot (with_page first 2048 13320 (take_pages 1 machine 0 1 3) 3) 2 100 66

slab-given : kmalloc 1 4 slab_size roomy ≡ some (some 13320, first)
unfolding kmalloc kmalloc_with find_pool choose_slab find_free do_slab_malloc find_slot take_slot
    constructed
slab-given = refl

page-given : alloc_pages first.memory zone_normal 1 0 ≡ found 3 (take_pages 1 machine 0 1 3)
unfolding alloc_pages try_zones find_pages find_bit window take_slot
page-given = refl

map-given :
    kmalloc 1 4 (map_length 1024) (with_page first 2048 13320 (take_pages 1 machine 0 1 3) 3)
    ≡ some (some 13448, second)
unfolding kmalloc kmalloc_with find_pool choose_slab find_free do_slab_malloc find_slot take_slot
    constructed with_page describe clear_slab
map-given = refl

second-KeepsSlab :
    KeepsSlab (with_page first 2048 13320 (take_pages 1 machine 0 1 3) 3) second 13320
unfolding take_slot with_page describe
second-KeepsSlab = record { page = refl; total = refl; length = refl; using = refl; free = refl }

get_new_slab-IsFresh_example :
    (t : Heap) × (get_new_slab (kmalloc 1 4) (kfree 1 4) 2048 roomy ≡ some (some 13320, t))
    × IsFresh t 13320 1024
    × (t.page 13320 ≡ 3)
    × (t.color_map 13320 ≡ 13448)
get_new_slab-IsFresh_example =
    get_new_slab-IsFresh (kmalloc 1 4) (kfree 1 4) 2048 roomy first second 13320 13448
      (take_pages 1 machine 0 1 3) 3 (omega arith) slab-given page-given map-given second-KeepsSlab

kmalloc-takes_example :
    (j : ℕ) × (t : Heap) × (kmalloc 1 4 100 heap ≡ some (pointer (5000 + pool_size 2 * j), t))
    × (j < 70)
    × (used (words heap 100) j ≡ false)
    × IsSlab t 100
    × Took heap t 2 100 j
kmalloc-takes_example =
    kmalloc-takes 0 4 100 heap 2 100 [] [] [] (record { sizes = λ i h. refl; plain = λ i h. refl })
      (omega arith) (omega arith) below (ground arith)
      (record { chain = (refl, refl); distinct = (refl, tt) }) refl tt heap-IsSlab (ground arith)
      (omega arith)
  where
    below : (m : ℕ) → m < 2 → pool_size m < 100
    below zero h = omega arith
    below (suc zero) h = omega arith
    below (suc (suc m)) h = absurd (omega arith)

kmalloc_slab_init-skips_example :
    let t = (kmalloc_slab_init heap 0xffff800000123000).0 in
    ((t.cache 0).cache_pool ≡ 0xffff800000123000)
    × (t.vaddress 0xffff800000123000 ≡ 5000)
    × (t.page 0xffff800000123000 ≡ 0)
kmalloc_slab_init-skips_example = kmalloc_slab_init-skips heap 0xffff800000123000 (omega arith)
