-- ===== src/Slab/Pool.antt =====
-- Pools of objects that their users make: slab_create, slab_destory, slab_malloc and slab_free of
-- kernel/mm/slab.c.
--
-- `depth` and `f` are those of kmalloc and kfree; `f` also bounds the loops over a pool's slabs. `call` is
-- what the code behind constructors answers.
use s_os.Memory.Init.{page_2m_size}
use s_os.Base.{
  ℕ, zero, suc, ◌+◌, ◌-◌, ◌*◌, ◌/◌, ◌^◌, ◌%◌, Bool, Option, none, some, ◌==◌, leb, ltb, ◌&&◌,
  if◌then◌else◌, update,
}
use s_os.Base.Monad.{◌>>=◌}
use s_os.ListHeap.{Ptr, list_add_to_behind, list_is_empty, list_next}
use s_os.Memory.{page_clean, free_pages}
use s_os.Slab.{Heap, do_slab_malloc, release_slot}
use s_os.Slab.Kmalloc.{Outcome, kmalloc, kfree, get_new_slab, do_slab_destory}

-- the size of `struct Slab_cache`
abbrev pub slab_cache_size : ℕ
slab_cache_size = 56

-- `SIZEOF_LONG_ALIGN`
abbrev pub long_align : ℕ → ℕ
long_align size = (size + 7) / 8 * 8

-- Is the address in the page of the slab?
abbrev pub in_page : Heap → Ptr → ℕ → Bool
in_page s slab address =
    leb (s.vaddress slab) address && ltb address (s.vaddress slab + page_2m_size)

module _ (depth f : ℕ) where
  unfoldable pub slab_create : ℕ → Option Ptr → Option Ptr → Heap → Outcome
  slab_create size constructor destructor s = do
    (cache, s1) ← kmalloc depth f slab_cache_size s
    elim cache [
      | none ↦ some (none, s1)
      | some p ↦
          let s2 = record s1 {
            cache = update s1.cache p (record {
              size = long_align size;
              total_using = 0;
              total_free = 0;
              cache_pool = 0;
              constructor = constructor;
              destructor = destructor;
            });
          } in
          do
            (slab, s3) ← get_new_slab (kmalloc depth f) (kfree depth f) (long_align size) s2
            elim slab [
              | none ↦ kfree depth f p s3 >>= λ r. some (none, r.1)
              | some q ↦ some (
                some p,
                record s3 {
                  cache =
                      update s3.cache p
                        (record (s3.cache p) { cache_pool = q; total_free = s3.free_count q });
                },
              )
            ]
    ]

  -- the last slab of a pool, which is not unlinked, and then the pool
  unfoldable pub destory_last : Heap → ℕ → Ptr → Option (ℕ × Heap)
  destory_last s cache slab = do
    (r, s1) ← kfree depth f (s.color_map slab) s
    (r', s2) ← kfree depth f slab (record s1 {
      memory = free_pages (page_clean s1.memory (s1.page slab)) (some (s1.page slab)) 1;
    })
    (r'', s3) ← kfree depth f cache s2
    some (1, s3)

  -- `while (!list_is_empty(…))`
  unfoldable pub destory_slabs : ℕ → Heap → ℕ → Ptr → Option (ℕ × Heap)
  destory_slabs zero s cache slab = none
  destory_slabs (suc n) s cache slab =
      let last = destory_last s cache slab in
      let rest = do_slab_destory (kfree depth f) s slab >>= λ t.
      destory_slabs n t cache (list_next s.links slab) in
      if list_is_empty s.links slab then last else rest

  -- 0 and 1 stand for failure and success.
  unfoldable pub slab_destory : Heap → ℕ → Option (ℕ × Heap)
  slab_destory s cache =
      let c = s.cache cache in
      let all = destory_slabs f s cache c.cache_pool in
      if c.total_using == 0 then all else some (0, s)

  module _ (call : Ptr → ℕ → ℕ → ℕ) where
    -- The loop over the slabs. A slab that counts free objects and gives none is tried again, unless it is
    -- the first.
    unfoldable pub malloc_from : ℕ → Heap → ℕ → Ptr → ℕ → Outcome
    malloc_from zero s cache slab arg = none
    malloc_from (suc n) s cache slab arg =
        let pool = (s.cache cache).cache_pool in
        let following = list_next s.links slab in
        let (object, t) = do_slab_malloc call s cache slab arg in
        let next = malloc_from n s cache following arg in
        let again = malloc_from n t cache slab arg in
        if s.free_count slab == 0
        then (if following == pool then some (none, s) else next)
        else elim object [
          | some p ↦ some (some p, t)
          | none ↦ if slab == pool then some (none, t) else again
        ]

    unfoldable pub slab_malloc : Heap → ℕ → ℕ → Outcome
    slab_malloc s cache arg =
        let c = s.cache cache in
        let old = malloc_from f s cache c.cache_pool arg in
        let fresh : Outcome = (do
          (slab, s1) ← get_new_slab (kmalloc depth f) (kfree depth f) c.size s
          elim slab [
            | none ↦ some (none, s1)
            | some p ↦
                let c1 = s1.cache cache in
                let s2 = record s1 {
                  links = list_add_to_behind s1.links c1.cache_pool p;
                  cache =
                      update s1.cache cache
                        (record c1 { total_free = (c1.total_free + s1.color_count p) % 2 ^ 64 });
                } in
                let (object, s3) = do_slab_malloc call s2 cache p arg in
                elim object [
                  | some o ↦ some (some o, s3)
                  | none ↦ do_slab_destory (kfree depth f) s3 p >>= λ t. some (none, t)
                ]
          ]) in
        if c.total_free == 0 then fresh else old

  -- The fourth step of slab_free, for a slab that counts no object in use in a pool with enough free ones.
  -- The destructor is left out: what it does to the object is not part of the heap.
  unfoldable pub shrink_pool : Heap → ℕ → Ptr → Option Heap
  shrink_pool s cache slab =
      let c = s.cache cache in
      let pool = if slab == c.cache_pool then list_next s.links slab else c.cache_pool in
      let s1 = record s {
        cache = update s.cache cache (record c {
          cache_pool = pool;
          total_free = (c.total_free + (2 ^ 64 - s.color_count slab)) % 2 ^ 64;
        });
      } in
      let gone = do_slab_destory (kfree depth f) s1 slab in
      if (s.using_count slab == 0) && leb (s.color_count slab * 3 / 2) c.total_free
      then gone
      else some s

  -- The loop of slab_free. It does not leave the loop when it has released the object; the answer is 0
  -- in every case.
  unfoldable pub free_from : ℕ → Heap → ℕ → Ptr → ℕ → Option (ℕ × Heap)
  free_from zero s cache slab address = none
  free_from (suc n) s cache slab address =
      let following = list_next s.links slab in
      let pool = (s.cache cache).cache_pool in
      let next = free_from n s cache following address in
      let index = (address - s.vaddress slab) / (s.cache cache).size in
      let here : Option (ℕ × Heap) = (do
        t ← shrink_pool (release_slot s cache slab index) cache slab
        (let again = free_from n t cache slab address in
            if slab == (t.cache cache).cache_pool then some (0, t) else again)) in
      if in_page s slab address then here else if following == pool then some (0, s) else next

  unfoldable pub slab_free : Heap → ℕ → ℕ → Option (ℕ × Heap)
  slab_free s cache address = free_from f s cache (s.cache cache).cache_pool address
