-- ===== src/Slab/Take.antt =====
-- Taking an object out of a slab of kernel/mm/slab.c and giving it back.
use s_os.Base.{
  ℕ, ◌+◌, ◌-◌, ◌*◌, ◌^◌, ◌≡◌, ◌<◌, ◌≢◌, refl, ◌∙◌, subst, Bool, true, false, none, ◌==◌, ◌||◌, ◌&&◌,
  not, if◌then◌else◌, arith, Bool-cases, Option-cases, inl, inr,
}
use s_os.ListHeap.{Ptr}
use s_os.Memory.{dec}
use s_os.Memory.Bitmap.{used}
use s_os.Slab.{
  Heap, words, find_slot, take_slot, release_slot, do_slab_malloc, constructed, pointer,
}
use s_os.Slab.Bits.{
  count_used, count_used-le, count_used-one, count_used-all, count_used-lt, or-used, xor-used,
  find_slot-free, find_slot-none,
}

-- The counters of a slab count its bits, and no bit behind the last object is looked at. It has fewer
-- than 2^30 objects, so that the `int` index of the loops over them holds every number on the way.
pub record IsSlab (s : Heap) (slab : Ptr) : Type 0 where
  pub using : s.using_count slab ≡ count_used (words s slab) (s.color_count slab)
  pub free : s.using_count slab + s.free_count slab ≡ s.color_count slab
  pub small : s.color_count slab < 2 ^ 30

-- In `t` the bit `j` of the slab is set, the others are as in `s`, and only that slab's bitmap and counters
-- and the pool's counters differ.
pub record Took (s t : Heap) (cache : ℕ) (slab : Ptr) (j : ℕ) : Type 0 where
  pub bits : (k : ℕ) → used (words t slab) k ≡ (used (words s slab) k || (k == j))
  pub using : t.using_count slab ≡ s.using_count slab + 1
  pub pool : (t.cache cache).total_free ≡ dec (s.cache cache).total_free
  pub frame : t ≡ record s {
    word = t.word;
    using_count = t.using_count;
    free_count = t.free_count;
    cache = t.cache;
  }

module _ (s : Heap) (cache : ℕ) (slab : Ptr) (o : IsSlab s slab) where
  take_slot-bits :
      (j k : ℕ)
      → used (words (take_slot s cache slab j) slab) k ≡ (used (words s slab) k || (k == j))
  unfolding take_slot
  take_slot-bits j k = ground (arith, or-used (words s slab) j k)

  take_slot-IsSlab :
      (j : ℕ)
      → j < s.color_count slab
      → used (words s slab) j ≡ false
      → IsSlab (take_slot s cache slab j) slab × Took s (take_slot s cache slab j) cache slab j
  unfolding take_slot
  take_slot-IsSlab j h clear =
      let t = take_slot s cache slab j in
      let one =
        count_used-one (words s slab) (words t slab) (s.color_count slab) j h clear
          (λ k. take_slot-bits j k) in
      let le = count_used-le (words t slab) (s.color_count slab) in
      let u : t.using_count slab ≡ s.using_count slab + 1 = ground (arith, o.using, o.small) in
      let f : t.free_count slab ≡ s.free_count slab - 1 =
        ground (arith, o.using, o.small, o.free) in
      (
        record {
          using = omega (arith, o.using);
          free = omega (arith, o.using, o.free);
          small = o.small;
        },
        record { bits = take_slot-bits j; using = u; pool = ground arith; frame = refl },
      )

  -- A slab of fewer than 2^30 objects whose counters count its bits, and that counts a free object, gives
  -- one out: the search finds it. The object was free, it is in use now, and the slab's counters still
  -- count its bits; the other objects of the slab are as before, and nothing but this slab's bitmap and the
  -- counters of the slab and the pool has changed.
  pub do_slab_malloc-IsSlab :
      (call : Ptr → ℕ → ℕ → ℕ) (arg : ℕ)
      → s.free_count slab ≢ 0
      → (j : ℕ) × (t : Heap) × (j < s.color_count slab)
        × (used (words s slab) j ≡ false)
        × (do_slab_malloc call s cache slab arg ≡ (
          pointer
              (constructed call (s.cache cache) (s.vaddress slab + (s.cache cache).size * j) arg),
          t,
        ))
        × IsSlab t slab
        × Took s t cache slab j
  unfolding do_slab_malloc
  do_slab_malloc-IsSlab call arg some_free =
      let n = s.color_count slab in
      elim (Option-cases (find_slot n (words s slab) n 0)) [
        | inl missing ↦
            let all = count_used-all (words s slab) n (λ k h.
              find_slot-none n (words s slab) n 0 missing (omega arith) refl k (omega arith) h) in
            absurd (some_free (omega (arith, o.using, o.free)))
        | inr (j, e) ↦
            let (h, clear) = find_slot-free n (words s slab) n 0 j e in
            let (o1, k1) = take_slot-IsSlab j h clear in
            (j, take_slot s cache slab j, h, clear, rw (e, do_slab_malloc) refl, o1, k1)
      ]

  -- A slab that counts no free object gives none out, and nothing changes.
  pub do_slab_malloc-full :
      (call : Ptr → ℕ → ℕ → ℕ) (arg : ℕ)
      → s.free_count slab ≡ 0
      → do_slab_malloc call s cache slab arg ≡ (none, s)
  unfolding do_slab_malloc
  do_slab_malloc-full call arg no_free =
      let n = s.color_count slab in
      elim (Option-cases (find_slot n (words s slab) n 0)) [
        | inl missing ↦ rw (missing, do_slab_malloc) refl
        | inr (j, e) ↦
            let (h, clear) = find_slot-free n (words s slab) n 0 j e in
            absurd (omega (arith, count_used-lt (words s slab) n j h clear, o.using, o.free))
      ]

  release_slot-bits :
      (j k : ℕ)
      → used (words (release_slot s cache slab j) slab) k
        ≡ (if k == j then not (used (words s slab) k) else used (words s slab) k)
  unfolding release_slot
  release_slot-bits j k = ground (arith, xor-used (words s slab) j k)

  -- In a slab of fewer than 2^30 objects whose counters count its bits, giving back an object that is in
  -- use clears its bit, leaves the other objects as they were, adds one to the free objects, and keeps the
  -- slab's counters true.
  pub release_slot-IsSlab :
      (j : ℕ)
      → j < s.color_count slab
      → used (words s slab) j ≡ true
      → IsSlab (release_slot s cache slab j) slab
        × ((k : ℕ)
            → used (words (release_slot s cache slab j) slab) k
              ≡ (used (words s slab) k && not (k == j)))
        × ((release_slot s cache slab j).free_count slab ≡ s.free_count slab + 1)
  unfolding release_slot
  release_slot-IsSlab j h set =
      let t = release_slot s cache slab j in
      let bits : (k : ℕ) → used (words t slab) k ≡ (used (words s slab) k && not (k == j)) =
        λ k. release_slot-bits j k ∙ flip (used (words s slab)) j set k in
      let one =
        count_used-one (words t slab) (words s slab) (s.color_count slab) j h
          (ground (arith, bits j)) (λ k. ground (arith, bits k)) in
      let u : t.using_count slab ≡ s.using_count slab - 1 =
        ground (arith, o.using, o.small, count_used-le (words s slab) (s.color_count slab)) in
      let f : t.free_count slab ≡ s.free_count slab + 1 =
        ground (arith, o.using, o.small, o.free) in
      (
        record {
          using = omega (arith, o.using);
          free = omega (arith, o.using, o.free);
          small = o.small;
        },
        bits,
        f,
      )
    where
      flip :
          (f : ℕ → Bool) (j : ℕ)
          → f j ≡ true
          → (k : ℕ) → (if k == j then not (f k) else f k) ≡ (f k && not (k == j))
      flip f j set k = elim (Bool-cases (k == j)) [
        | inl e ↦
            let same : j ≡ k = ground arith in rw e (rw (subst (λ q. f q ≡ true) same set) refl)
        | inr e ↦ rw e (ground arith)
      ]
