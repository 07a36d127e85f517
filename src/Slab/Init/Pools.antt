-- ===== src/Slab/Init/Pools.antt =====
-- Which pools kmalloc_slab_init of kernel/mm/slab.c gives a page.
use s_os.Memory.Init.{page_2m_size, virt_to_phy}
use s_os.Base.{
  ℕ, zero, suc, ◌+◌, ◌-◌, ◌/◌, ◌≡◌, ◌≤◌, ◌<◌, ◌≢◌, refl, ◌∙◌, ap, ◌==◌, if◌then◌else◌, update,
  arith, Bool-cases, inl, inr,
}
use s_os.ListHeap.{Ptr, list_init}
use s_os.Slab.{Heap, SlabCache}
use s_os.Slab.Kmalloc.{map_length, prepare_map}
use s_os.Slab.Filled.{prepare_map-frame}
use s_os.Slab.Init.{
  init_pool, init_pools, place_pool, place_pools, keep_pages, kmalloc_slab_init, first_page,
  last_index, next_slab, map_address,
}

module _ (s : Heap) (i e : ℕ) where
  -- what init_pool has done to the slab before it prepares the bitmap
  abbrev described : Heap
  described =
      let count = page_2m_size / (s.cache i).size in
      record s {
        cache = update s.cache i (record (s.cache i) { cache_pool = e });
        links = list_init s.links e;
        using_count = update s.using_count e 0;
        free_count = update s.free_count e count;
        color_length = update s.color_length e (map_length count);
        color_count = update s.color_count e count;
        color_map = update s.color_map e (map_address e);
      }

  init_pool-places : ((init_pool s i e).vaddress ≡ s.vaddress) × ((init_pool s i e).page ≡ s.page)
  unfolding init_pool
  init_pool-places = (
    ap (λ (q : Heap). q.vaddress) (prepare_map-frame described e),
    ap (λ (q : Heap). q.page) (prepare_map-frame described e),
  )

  init_pool-pool :
      (j : ℕ)
      → ((init_pool s i e).cache j).cache_pool ≡ (if j == i then e else (s.cache j).cache_pool)
  unfolding init_pool
  init_pool-pool j =
      let same : (prepare_map described e).cache ≡ described.cache =
        ap (λ (q : Heap). q.cache) (prepare_map-frame described e) in
      let at : ((prepare_map described e).cache j).cache_pool ≡ (described.cache j).cache_pool =
        ap (λ (c : ℕ → SlabCache). (c j).cache_pool) same in
      let here : ((prepare_map described e).cache i).cache_pool ≡ e =
        ap (λ (c : ℕ → SlabCache). (c i).cache_pool) same ∙ ground arith in
      ground (arith, at, here)

next_slab-above : (e count : ℕ) → e < next_slab e count
next_slab-above e count = omega arith

init_pools-places :
    (n : ℕ) (s : Heap) (i e : ℕ)
    → ((init_pools n s i e).0.vaddress ≡ s.vaddress) × ((init_pools n s i e).0.page ≡ s.page)
unfolding init_pools
init_pools-places zero s i e = (refl, refl)
init_pools-places (suc n) s i e =
    let (v, p) =
      init_pools-places n (init_pool s i e) (i + 1)
        (next_slab e (page_2m_size / (s.cache i).size)) in
    let (v0, p0) = init_pool-places s i e in (v ∙ v0, p ∙ p0)

-- The pools in front are left alone, and those of the loop have slabs from `e` on.
init_pools-before :
    (n : ℕ) (s : Heap) (i e j : ℕ)
    → j < i
    → ((init_pools n s i e).0.cache j).cache_pool ≡ (s.cache j).cache_pool
unfolding init_pools
init_pools-before zero s i e j h = refl
init_pools-before (suc n) s i e j h =
    init_pools-before n (init_pool s i e) (i + 1) (next_slab e (page_2m_size / (s.cache i).size)) j
      (omega arith)
    ∙ ground (arith, init_pool-pool s i e j)

init_pools-above :
    (n : ℕ) (s : Heap) (i e j : ℕ)
    → i ≤ j
    → j < i + n
    → e ≤ ((init_pools n s i e).0.cache j).cache_pool
unfolding init_pools
init_pools-above zero s i e j l h = absurd (omega arith)
init_pools-above (suc n) s i e j l h =
    let after = next_slab e (page_2m_size / (s.cache i).size) in
    elim (Bool-cases (j == i)) [
      | inl here ↦
          let own =
            init_pools-before n (init_pool s i e) (i + 1) after j (ground arith)
            ∙ init_pool-pool s i e j in
          ground (arith, own)
      | inr later ↦ omega (
        arith,
        init_pools-above n (init_pool s i e) (i + 1) after j (ground arith) (omega arith),
        next_slab-above e (page_2m_size / (s.cache i).size),
      )
    ]

place_pools-skips :
    (n : ℕ) (s : Heap) (i e : ℕ) (slab : Ptr)
    → ((j : ℕ) → i ≤ j → j < i + n → (s.cache j).cache_pool ≢ slab)
    → let t = place_pools n s i e in
      (t.vaddress slab ≡ s.vaddress slab) × (t.page slab ≡ s.page slab) × (t.cache ≡ s.cache)
unfolding place_pools place_pool
place_pools-skips zero s i e slab h = (refl, refl, refl)
place_pools-skips (suc n) s i e slab h =
    let (v, p, c) =
      place_pools-skips n (place_pool s i e) (i + 1) e slab
        (λ j l k. h j (omega arith) (omega arith)) in
    (v ∙ ground (arith, h i), p ∙ ground (arith, h i), c)

module _ (s : Heap) (origin : ℕ) (later : 0 < virt_to_phy origin) where
  abbrev pools : Heap
  pools = (init_pools 16 s 0 origin).0

  abbrev reached : ℕ
  reached = (init_pools 16 s 0 origin).1

  first_pool : (pools.cache 0).cache_pool ≡ origin
  unfolding init_pools
  first_pool =
      init_pools-before 15 (init_pool s 0 origin) 1
        (next_slab origin (page_2m_size / (s.cache 0).size)) 0 (omega arith)
      ∙ (init_pool-pool s 0 origin 0 ∙ ground arith)

  other_pools : (j : ℕ) → 1 ≤ j → j < 16 → (pools.cache j).cache_pool ≢ origin
  unfolding init_pools
  other_pools j l h = omega (
    arith,
    init_pools-above 15 (init_pool s 0 origin) 1
        (next_slab origin (page_2m_size / (s.cache 0).size)) j l (omega arith),
    next_slab-above origin (page_2m_size / (s.cache 0).size),
  )

  index-positive : 1 ≤ last_index (first_page origin) reached
  index-positive = ground (arith, later)

  -- kmalloc_slab_init gives no page to the pool of the smallest objects, if the memory in use before it
  -- ends behind the physical address 0: that pool's slab keeps the page and the address that stood there.
  pub kmalloc_slab_init-skips :
      let t = (kmalloc_slab_init s origin).0 in
      ((t.cache 0).cache_pool ≡ origin)
      × (t.vaddress origin ≡ s.vaddress origin)
      × (t.page origin ≡ s.page origin)
  unfolding kmalloc_slab_init
  kmalloc_slab_init-skips =
      let index = last_index (first_page origin) reached in
      let kept = record pools {
        memory = keep_pages (index - first_page origin) pools.memory (first_page origin);
      } in
      let (v, p, c) =
        place_pools-skips (16 - index) kept index reached origin
          (λ j l h. other_pools j (omega (arith, index-positive)) (omega arith)) in
      let (v0, p0) = init_pools-places 16 s 0 origin in
      (
        ap (λ (q : ℕ → SlabCache). (q 0).cache_pool) c ∙ first_pool,
        v ∙ ap (λ (q : Ptr → ℕ). q origin) v0,
        p ∙ ap (λ (q : Ptr → ℕ). q origin) p0,
      )
