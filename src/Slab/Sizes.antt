-- ===== src/Slab/Sizes.antt =====
-- Which pool and which slab kmalloc of kernel/mm/mm.c takes an object from.
use native.Mathlib.Nat.{pow-le-pow_right}
use s_os.Base.{
  ℕ, zero, suc, ◌+◌, ◌*◌, ◌^◌, ◌≡◌, ◌≤◌, ◌<◌, ◌≢◌, refl, ◌∙◌, sym, ap, subst, true, false, none,
  some, List, [], ◌∷◌, ◌++◌, length, ◌==◌, leb, ltb, arith, All, Bool-cases, inl, inr,
}
use s_os.ListHeap.{Ptr, list_next}
use s_os.ListHeap.Chain.{Chain, has}
use s_os.ListHeap.Ring.{IsRing, list_next_lem}
use s_os.Memory.Bitmap.{used}
use s_os.Slab.{Heap, SlabCache, words, pointer, do_slab_malloc, constructed}
use s_os.Slab.Take.{IsSlab, Took, do_slab_malloc-IsSlab}
use s_os.Slab.Kmalloc.{
  pool_size, find_pool, find_free, choose_slab, kmalloc_with, kmalloc, kmalloc_create, kfree,
  Outcome,
}

-- The pools have the sizes of `kmalloc_cache_size`, and no constructors.
pub record HasPools (s : Heap) : Type 0 where
  pub sizes : (i : ℕ) → i < 16 → (s.cache i).size ≡ pool_size i
  pub plain : (i : ℕ) → i < 16 → (s.cache i).constructor ≡ none

-- The loop stops at the first pool whose objects are large enough.
find_pool-first :
    (n : ℕ) (s : Heap) (size k i : ℕ)
    → k ≤ i
    → i < k + n
    → ((m : ℕ) → k ≤ m → m < i → (s.cache m).size < size)
    → size ≤ (s.cache i).size
    → find_pool n s size k ≡ i
unfolding find_pool
find_pool-first zero s size k i low high below fits = absurd (omega arith)
find_pool-first (suc n) s size k i low high below fits = elim (Bool-cases (k == i)) [
  | inl e ↦
      let same : i ≡ k = ground arith in
      let le : leb size (s.cache k).size ≡ true =
        ground (arith, subst (λ q. size ≤ (s.cache q).size) same fits) in
      rw (le, find_pool) (sym same)
  | inr e ↦
      let gt : leb size (s.cache k).size ≡ false = ground (arith, below k) in
      rw (gt, find_pool)
        (find_pool-first n s size (k + 1) i (ground arith) (omega arith)
          (λ m l h. below m (omega arith) h) fits)
]

module _ (f : ℕ) (s : Heap) (pool a : Ptr) where
  find_free-here : s.free_count a ≢ 0 → find_free (suc f) s pool a ≡ some a
  unfolding find_free
  find_free-here h =
      let nz : (s.free_count a == 0) ≡ false = ground arith in rw (nz, find_free) refl

  find_free-next :
      (b : Ptr)
      → s.free_count a ≡ 0
      → s.links.next a ≡ b
      → (b == pool) ≡ false
      → find_free (suc f) s pool a ≡ find_free f s pool b
  unfolding find_free
  find_free-next b h e far =
      let z : (s.free_count a == 0) ≡ true = ground arith in
      let next : list_next s.links a ≡ b = list_next_lem s.links a ∙ e in
      rw (z, next, far, find_free) refl

-- A slab with a free object behind full ones is found.
find_free-behind :
    (f : ℕ) (s : Heap) (pool a slab : Ptr) (us vs : List Ptr)
    → Chain s.links a (us ++ (slab ∷ vs)) pool
    → has pool (us ++ (slab ∷ vs)) ≡ false
    → s.free_count a ≡ 0
    → All (λ u. s.free_count u ≡ 0) us
    → s.free_count slab ≢ 0
    → length us + 1 < f
    → find_free f s pool a ≡ some slab
find_free-behind zero s pool a slab us vs c out full alls some_free fuel = absurd (omega arith)
find_free-behind (suc zero) s pool a slab us vs c out full alls some_free fuel =
    absurd (omega arith)
find_free-behind (suc (suc f)) s pool a slab [] vs c out full alls some_free fuel =
    find_free-next (suc f) s pool a slab full c.0 (ground arith)
    ∙ find_free-here f s pool slab some_free
find_free-behind (suc (suc f)) s pool a slab (u ∷ us) vs c out full alls some_free fuel =
    find_free-next (suc f) s pool a u full c.0 (ground arith)
    ∙ find_free-behind (suc f) s pool u slab us vs c.2 (ground arith) alls.0 alls.1 some_free
        (omega arith)

-- The first slab of a pool with a free object is found.
find_free-first :
    (f : ℕ) (s : Heap) (pool slab : Ptr) (xs us vs : List Ptr)
    → IsRing s.links pool xs
    → (pool ∷ xs) ≡ us ++ (slab ∷ vs)
    → All (λ u. s.free_count u ≡ 0) us
    → s.free_count slab ≢ 0
    → length us < f
    → find_free f s pool pool ≡ some slab
find_free-first zero s pool slab xs us vs r split alls some_free fuel = absurd (omega arith)
find_free-first (suc f) s pool slab xs [] vs r split alls some_free fuel =
    let e : pool ≡ slab = ground arith in
    subst (λ q. find_free (suc f) s pool q ≡ some slab) (sym e)
      (find_free-here f s pool slab some_free)
find_free-first (suc f) s pool slab xs (u ∷ us) vs r split alls some_free fuel =
    let e : u ≡ pool = ground arith in
    let tail : xs ≡ us ++ (slab ∷ vs) = ground arith in
    find_free-behind (suc f) s pool pool slab us vs
      (subst (λ l. Chain s.links pool l pool) tail r.chain)
      (subst (λ l. has pool l ≡ false) tail r.distinct.0) (subst (λ q. s.free_count q ≡ 0) e alls.0)
      alls.1 some_free (omega arith)

choose_slab-old :
    (create : ℕ → Heap → Outcome) (f : ℕ) (s : Heap) (i : ℕ) (slab : Ptr)
    → (s.cache i).total_free ≢ 0
    → find_free f s (s.cache i).cache_pool (s.cache i).cache_pool ≡ some slab
    → choose_slab create f s i ≡ some (some slab, s)
unfolding choose_slab
choose_slab-old create f s i slab left e =
    let nz : ((s.cache i).total_free == 0) ≡ false = ground arith in rw (nz, e, choose_slab) refl

kmalloc_with-old :
    (create : ℕ → Heap → Outcome) (f size : ℕ) (s : Heap) (i : ℕ) (slab : Ptr)
    → size ≤ 2 ^ 20
    → find_pool 16 s size 0 ≡ i
    → choose_slab create f s i ≡ some (some slab, s)
    → kmalloc_with create f size s ≡ some (do_slab_malloc (λ c o a. o) s i slab 0)
unfolding kmalloc_with
kmalloc_with-old create f size s i slab small e c =
    let le : ltb 1048576 size ≡ false = ground arith in
    rw (le, e, c, kmalloc_with) (ap (λ (q : ℕ). some (do_slab_malloc (λ c o a. o) s q slab 0)) e)

-- Without a constructor the object is where the slab has it.
plain_object :
    (c : SlabCache) (size base j : ℕ)
    → c.size ≡ size
    → c.constructor ≡ none
    → constructed (λ c o a. o) c (base + c.size * j) 0 ≡ base + size * j
unfolding constructed
plain_object c size base j e n = rw⁻¹ e (rw (constructed, n) refl)

pool_size-le : (size i : ℕ) → i < 16 → size ≤ pool_size i → size ≤ 2 ^ 20
pool_size-le size i h fits =
    omega (arith, pow-le-pow_right {n = 2} (omega arith) {i = i + 5} {j = 20} (omega arith))

-- While the pool that fits has a free object, kmalloc takes one from it: from the smallest pool whose
-- objects are as large as the request, and there from the first slab with a free object. The object was
-- free, it is in use now, and its size is that of the pool. The hypotheses: the request is at most 1 MB, the
-- pool's slabs form a ring, the slabs in front of that one count no free object, and it has fewer than
-- 2^30 objects and counters that count its bits.
pub kmalloc-takes :
    (depth f size : ℕ) (s : Heap) (i slab : ℕ) (xs us vs : List Ptr)
    → HasPools s
    → i < 16
    → size ≤ pool_size i
    → ((m : ℕ) → m < i → pool_size m < size)
    → (s.cache i).total_free ≢ 0
    → IsRing s.links (s.cache i).cache_pool xs
    → ((s.cache i).cache_pool ∷ xs) ≡ us ++ (slab ∷ vs)
    → All (λ u. s.free_count u ≡ 0) us
    → IsSlab s slab
    → s.free_count slab ≢ 0
    → length us < f
    → (j : ℕ) × (t : Heap) × (kmalloc (suc depth) f size s
        ≡ some (pointer (s.vaddress slab + pool_size i * j), t))
      × (j < s.color_count slab)
      × (used (words s slab) j ≡ false)
      × IsSlab t slab
      × Took s t i slab j
unfolding kmalloc
kmalloc-takes depth f size s i slab xs us vs p in_range fits below left r split alls o some_free
      fuel =
    let create = kmalloc_create (kmalloc depth f) (kfree depth f) in
    let small : size ≤ 2 ^ 20 = pool_size-le size i in_range fits in
    let at =
      find_pool-first 16 s size 0 i (omega arith) in_range
        (λ m l h. subst (λ z. z < size) (sym (p.sizes m (omega arith))) (below m h))
        (subst (λ z. size ≤ z) (sym (p.sizes i in_range)) fits) in
    let chosen =
      choose_slab-old create f s i slab left
        (find_free-first f s (s.cache i).cache_pool slab xs us vs r split alls some_free fuel) in
    let (j, t, h, clear, e, o1, k) = do_slab_malloc-IsSlab s i slab o (λ c o a. o) 0 some_free in
    (
      j,
      t,
      kmalloc_with-old create f size s i slab small at chosen
          ∙ ap some (
              e
              ∙ ap (λ (q : ℕ). (pointer q, t))
                  (plain_object (s.cache i) (pool_size i) (s.vaddress slab) j (p.sizes i in_range)
                    (p.plain i in_range))),
      h,
      clear,
      o1,
      k,
    )
