-- ===== src/Slab/Answer.antt =====
-- What slab_free of kernel/mm/slab.c answers.
use s_os.Base.{
  ℕ, zero, suc, ◌-◌, ◌/◌, ◌≡◌, ◌<◌, ◌≢◌, ◌&&◌, not, refl, ◌∙◌, sym, ap, Bool, true, false, Option,
  none, some, ◌==◌, if◌then◌else◌, arith, Bool-cases, Option-cases, inl, inr,
}
use s_os.ListHeap.{Ptr, list_next}
use s_os.Memory.Bitmap.{used}
use s_os.Slab.{Heap, words, release_slot}
use s_os.Slab.Take.{IsSlab, release_slot-IsSlab}
use s_os.Slab.Pool.{free_from, slab_free, shrink_pool, in_page}

module _ (depth f : ℕ) where
  returned : (r : ℕ) (t q : Heap) → ◌≡◌ {A = Option (ℕ × Heap)} (some (0, q)) (some (r, t)) → r ≡ 0
  returned r t q e = ground (arith, e)

  module _ (n : ℕ) (s : Heap) (cache : ℕ) (slab : Ptr) (address : ℕ) where
    free_from-elsewhere :
        in_page s slab address ≡ false
        → free_from depth f (suc n) s cache slab address ≡ (
            if list_next s.links slab == (s.cache cache).cache_pool
            then some (0, s)
            else free_from depth f n s cache (list_next s.links slab) address)
    unfolding free_from
    free_from-elsewhere out = rw (out, free_from) refl

    free_from-stuck :
        in_page s slab address ≡ true
        → shrink_pool depth f
            (release_slot s cache slab ((address - s.vaddress slab) / (s.cache cache).size))
            cache
            slab
          ≡ none
        → free_from depth f (suc n) s cache slab address ≡ none
    unfolding free_from
    free_from-stuck here e = rw (here, e, free_from) refl

    free_from-here :
        (q : Heap)
        → in_page s slab address ≡ true
        → shrink_pool depth f
            (release_slot s cache slab ((address - s.vaddress slab) / (s.cache cache).size))
            cache
            slab
          ≡ some q
        → free_from depth f (suc n) s cache slab address ≡ (
            if slab == (q.cache cache).cache_pool
            then some (0, q)
            else free_from depth f n q cache slab address)
    unfolding free_from
    free_from-here q here e = rw (here, e, free_from) refl

  free_from-zero :
      (s : Heap) (cache : ℕ) (slab : Ptr) (address : ℕ)
      → free_from depth f zero s cache slab address ≡ none
  unfolding free_from
  free_from-zero s cache slab address = refl

  free_from-answer :
      (n : ℕ) (s : Heap) (cache : ℕ) (slab : Ptr) (address r : ℕ) (t : Heap)
      → free_from depth f n s cache slab address ≡ some (r, t)
      → r ≡ 0
  free_from-answer zero s cache slab address r t e =
      ground (arith, free_from-zero s cache slab address, e)
  free_from-answer (suc n) s cache slab address r t e =
      let following = list_next s.links slab in
      let next = free_from-answer n s cache following address r t in
      elim (Bool-cases (in_page s slab address)) [
        | inr out ↦
            last (following == (s.cache cache).cache_pool) s _ next
              (sym (free_from-elsewhere n s cache slab address out) ∙ e)
        | inl here ↦
            elim (Option-cases (
              shrink_pool depth f
                (release_slot s cache slab ((address - s.vaddress slab) / (s.cache cache).size))
                cache slab)) [
                  | inl stuck ↦ ground (arith, free_from-stuck n s cache slab address here stuck, e)
                  | inr (q, k) ↦
                      last (slab == (q.cache cache).cache_pool) q _
                        (free_from-answer n q cache slab address r t)
                        (sym (free_from-here n s cache slab address q here k) ∙ e)
                ]
      ]
    where
      last :
          (b : Bool) (q : Heap) (rest : Option (ℕ × Heap))
          → (rest ≡ some (r, t) → r ≡ 0)
          → (if b then some (0, q) else rest) ≡ some (r, t)
          → r ≡ 0
      last true q rest k e = returned r t q e
      last false q rest k e = k e

  -- slab_free answers 0 whenever it returns, also when it has released the object.
  pub slab_free-answer :
      (s : Heap) (cache address r : ℕ) (t : Heap)
      → slab_free depth f s cache address ≡ some (r, t)
      → r ≡ 0
  unfolding slab_free
  slab_free-answer s cache address = free_from-answer f s cache (s.cache cache).cache_pool address

  shrink_pool-used :
      (s : Heap) (cache : ℕ) (slab : Ptr)
      → s.using_count slab ≢ 0
      → shrink_pool depth f s cache slab ≡ some s
  unfolding shrink_pool
  shrink_pool-used s cache slab h =
      let nz : (s.using_count slab == 0) ≡ false = ground arith in rw (nz, shrink_pool) refl

-- An object in use of the first slab of a pool is given back by slab_free: its bit is cleared, the other
-- objects are as before, and the slab's counters count its bits. The answer is 0 all the same, which the
-- comment says is failure. The slab has another object in use, so that it is not given up.
slab_free-first :
    (depth f : ℕ) (s : Heap) (cache : ℕ) (slab : Ptr) (address j : ℕ)
    → (s.cache cache).cache_pool ≡ slab
    → in_page s slab address ≡ true
    → (address - s.vaddress slab) / (s.cache cache).size ≡ j
    → IsSlab s slab
    → j < s.color_count slab
    → used (words s slab) j ≡ true
    → 1 < s.using_count slab
    → (t : Heap) × (slab_free depth (suc f) s cache address ≡ some (0, t))
      × IsSlab t slab
      × ((k : ℕ) → used (words t slab) k ≡ (used (words s slab) k && not (k == j)))
unfolding slab_free release_slot
slab_free-first depth f s cache slab address j first here at o h set more =
    let t = release_slot s cache slab j in
    let (o1, bits, _) = release_slot-IsSlab s cache slab o j h set in
    let left : t.using_count slab ≢ 0 = ground (arith, o.small, o.free) in
    let kept =
      ap (λ (i : ℕ). shrink_pool depth (suc f) (release_slot s cache slab i) cache slab) at
      ∙ shrink_pool-used depth (suc f) t cache slab left in
    let ends : (slab == (t.cache cache).cache_pool) ≡ true = ground (arith, first) in
    let run =
      ap (λ (q : Ptr). free_from depth (suc f) (suc f) s cache q address) first
      ∙ free_from-here depth (suc f) f s cache slab address t here kept in
    (t, run ∙ rw ends refl, o1, bits)
