-- ===== src/Slab/Fresh.antt =====
-- A new slab of get_new_Slab of kernel/mm/slab.c.
use s_os.Base.{
  ◌≤◌, ap, Option, some, update, ℕ, ◌*◌, ◌/◌, ◌^◌, ◌≡◌, ◌<◌, refl, ◌∙◌, sym, subst, leb, ltb, ◌&&◌,
  arith,
}
use s_os.ListHeap.{Ptr, list_init}
use s_os.Memory.{Memory, alloc_pages, found, page_init, zone_normal}
use s_os.Memory.Init.{page_2m_size, pg_kernel}
use s_os.Memory.Bitmap.{used}
use s_os.Slab.{Heap, words}
use s_os.Slab.Take.{IsSlab}
use s_os.Slab.Bits.{count_used, count_used-none}
use s_os.Slab.Kmalloc.{
  Outcome, slab_size, clear_slab, get_new_slab, new_slab_page, new_slab_map, describe, prepare_map,
  map_length,
}
use s_os.Slab.Filled.{fill_map-used, prepare_map-frame, prepare_map-used}

-- Nothing but the bitmap is set up: the heap `d` has a slab of `count` free objects, with the length of the
-- bitmap that they need.
record IsNew (d : Heap) (slab : Ptr) (count : ℕ) : Type 0 where
  pub total : d.color_count slab ≡ count
  pub length : d.color_length slab ≡ map_length count
  pub using : d.using_count slab ≡ 0
  pub free : d.free_count slab ≡ count

-- The slab counts its bits, all of its objects are free, and the bits of the bitmap behind them are set.
pub record IsFresh (t : Heap) (slab : Ptr) (count : ℕ) : Type 0 where
  pub counted : IsSlab t slab
  pub total : t.color_count slab ≡ count
  pub free : t.free_count slab ≡ count
  pub bits :
      (k : ℕ)
      → (ltb k (map_length count * 8) && used (words t slab) k)
        ≡ (ltb k (map_length count * 8) && leb count k)

module _ (d : Heap) (slab : Ptr) (count : ℕ) (new : IsNew d slab count) where
  prepared-used :
      (k : ℕ)
      → k < map_length count * 8
      → used ((prepare_map d slab).word (d.color_map slab)) k ≡ leb count k
  prepared-used k h = ground (
    arith,
    new.total,
    new.length,
    prepare_map-used d slab k,
    fill_map-used d (d.color_map slab) (d.color_length slab) k (omega (arith, new.length)),
  )

  prepare_map-IsFresh : count < 2 ^ 30 → IsFresh (prepare_map d slab) slab count
  prepare_map-IsFresh bound =
      let t = prepare_map d slab in
      let none_used : count_used (t.word (d.color_map slab)) (d.color_count slab) ≡ 0 =
        count_used-none (t.word (d.color_map slab)) (d.color_count slab)
          (λ k h. ground (arith, new.total, prepared-used k)) in
      subst (λ (q : Heap). IsFresh q slab count) (sym (prepare_map-frame d slab))
        (record {
          counted = record {
            using = ground (arith, none_used, new.using);
            free = ground (arith, new.using, new.free, new.total);
            small = ground (arith, new.total);
          };
          total = new.total;
          free = new.free;
          bits = λ k. ground (arith, prepared-used k);
        })

-- what get_new_Slab has done when it asks for the bitmap: the slab is filled in, with the page.
unfoldable pub with_page : Heap → ℕ → Ptr → Memory → ℕ → Heap
with_page s size slab m page =
    let cleared = record (clear_slab s slab) {
      links = list_init s.links slab;
      memory = page_init m page pg_kernel;
    } in
    describe cleared slab page (page_2m_size / size) (map_length (page_2m_size / size)) 0

-- The slab has the same page, counters and length of the bitmap in both heaps.
pub record KeepsSlab (s t : Heap) (slab : Ptr) : Type 0 where
  pub page : t.page slab ≡ s.page slab
  pub total : t.color_count slab ≡ s.color_count slab
  pub length : t.color_length slab ≡ s.color_length slab
  pub using : t.using_count slab ≡ s.using_count slab
  pub free : t.free_count slab ≡ s.free_count slab

prepare_map-page : (s : Heap) (slab : Ptr) → (prepare_map s slab).page slab ≡ s.page slab
prepare_map-page s slab = ap (λ (q : Heap). q.page slab) (prepare_map-frame s slab)

prepare_map-color_map :
    (s : Heap) (slab : Ptr) → (prepare_map s slab).color_map slab ≡ s.color_map slab
prepare_map-color_map s slab = ap (λ (q : Heap). q.color_map slab) (prepare_map-frame s slab)

with_map-IsNew :
    (s s2 : Heap) (size : ℕ) (slab map : Ptr) (m : Memory) (page : ℕ)
    → KeepsSlab (with_page s size slab m page) s2 slab
    → IsNew (record s2 { color_map = update s2.color_map slab map }) slab (page_2m_size / size)
unfolding with_page describe
with_map-IsNew s s2 size slab map m page keeps = record {
  total = ground (arith, keeps.total);
  length = ground (arith, keeps.length);
  using = ground (arith, keeps.using);
  free = ground (arith, keeps.free);
}

with_page-page :
    (s : Heap) (size : ℕ) (slab : Ptr) (m : Memory) (page : ℕ)
    → (with_page s size slab m page).page slab ≡ page
unfolding with_page describe
with_page-page s size slab m page = ground arith

module _ (alloc : ℕ → Heap → Outcome) (free : ℕ → Heap → Option (ℕ × Heap)) (size : ℕ) where
  new_slab_map-run :
      (s s2 : Heap) (slab map : Ptr) (page : ℕ)
      → let count = page_2m_size / size in
        alloc (map_length count) (describe s slab page count (map_length count) 0)
          ≡ some (some map, s2)
        → new_slab_map alloc free size slab page s
          ≡ some
              (some slab, prepare_map (record s2 { color_map = update s2.color_map slab map }) slab)
  unfolding new_slab_map
  new_slab_map-run s s2 slab map page given = rw (given, new_slab_map) refl

  new_slab_page-run :
      (s : Heap) (slab : Ptr) (m : Memory) (page : ℕ)
      → alloc_pages s.memory zone_normal 1 0 ≡ found page m
      → new_slab_page alloc free size slab s
        ≡ new_slab_map alloc free size slab page (record (clear_slab s slab) {
          links = list_init s.links slab;
          memory = page_init m page pg_kernel;
        })
  unfolding new_slab_page clear_slab
  new_slab_page-run s slab m page got = rw (got, new_slab_page) refl

  get_new_slab-run :
      (s s1 : Heap) (slab : Ptr)
      → alloc slab_size s ≡ some (some slab, s1)
      → get_new_slab alloc free size s ≡ new_slab_page alloc free size slab s1
  unfolding get_new_slab
  get_new_slab-run s s1 slab given = rw (given, get_new_slab) refl

-- get_new_Slab, where kmalloc gives it the slab and the bitmap and alloc_pages the page, and where the
-- kmalloc of the bitmap keeps the page and the counters of the slab, returns that slab: it has that page
-- and the bitmap that kmalloc gave, and 2 MB / size objects, all of them free; the bits of the bitmap
-- behind them are set, and its counters count its bits. The size is not 0.
pub get_new_slab-IsFresh :
    (alloc : ℕ → Heap → Outcome) (free : ℕ → Heap → Option (ℕ × Heap)) (size : ℕ) (s s1 s2 : Heap)
    (slab map : Ptr) (m : Memory) (page : ℕ)
    → 1 ≤ size
    → alloc slab_size s ≡ some (some slab, s1)
    → alloc_pages s1.memory zone_normal 1 0 ≡ found page m
    → alloc (map_length (page_2m_size / size)) (with_page s1 size slab m page) ≡ some (some map, s2)
    → KeepsSlab (with_page s1 size slab m page) s2 slab
    → (t : Heap) × (get_new_slab alloc free size s ≡ some (some slab, t))
      × IsFresh t slab (page_2m_size / size)
      × (t.page slab ≡ page)
      × (t.color_map slab ≡ map)
unfolding with_page
get_new_slab-IsFresh alloc free size s s1 s2 slab map m page low one two three keeps =
    let d = record s2 { color_map = update s2.color_map slab map } in
    let new = with_map-IsNew s1 s2 size slab map m page keeps in
    (
      prepare_map d slab,
      get_new_slab-run alloc free size s s1 slab one
          ∙ (new_slab_page-run alloc free size s1 slab m page two
              ∙ new_slab_map-run alloc free size _ s2 slab map page three),
      prepare_map-IsFresh d slab (page_2m_size / size) new (div_le size),
      prepare_map-page d slab ∙ (keeps.page ∙ with_page-page s1 size slab m page),
      prepare_map-color_map d slab ∙ ground arith,
    )
  where
    div_le : (size : ℕ) → page_2m_size / size < 2 ^ 30
    div_le size = ground arith
