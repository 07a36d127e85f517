-- ===== src/Slab/Filled.antt =====
-- The bitmap that get_new_Slab of kernel/mm/slab.c and kmalloc_create of kernel/mm/mm.c fill and clear.
use Prim.Native.Nat.{bit_xor}
use s_os.Base.{
  ℕ, zero, suc, ◌+◌, ◌*◌, ◌/◌, ◌%◌, ◌^◌, ◌≡◌, ◌<◌, refl, ◌∙◌, sym, subst, true, false, leb, ltb,
  ◌&&◌, not, if◌then◌else◌, arith,
}
use s_os.ListHeap.{Ptr}
use s_os.Base.Bits.{test-zero}
use s_os.Memory.Bitmap.{used}
use s_os.Slab.{Heap, words, fill_map, flip_bits, set_word, full_word}
use s_os.Slab.Bits.{xor-used, full-used}
use s_os.Slab.Kmalloc.{describe, prepare_map, map_length}

flip_bits-used :
    (n : ℕ) (s : Heap) (map : Ptr) (i k : ℕ)
    → used ((flip_bits n s map i).word map) k
      ≡ (if leb i k && ltb k (i + n) then not (used (s.word map) k) else used (s.word map) k)
unfolding flip_bits
flip_bits-used zero s map i k = ground arith
flip_bits-used (suc n) s map i k =
    flip_bits-used n (set_word s map (i / 64) (bit_xor (s.word map (i / 64)) (2 ^ (i % 64)))) map
      (i + 1) k
    ∙ ground (arith, xor-used (s.word map) i k)

pub fill_map-used :
    (s : Heap) (map : Ptr) (length k : ℕ)
    → k < length / 8 * 64
    → used ((fill_map s map length).word map) k ≡ true
unfolding fill_map
fill_map-used s map length k h = full-used ((fill_map s map length).word map) k (ground arith)

-- A map that is not filled and has zeros for words has no bit set.
unfilled :
    (s : Heap) (map : Ptr) (length k : ℕ)
    → length ≡ 0
    → ((i : ℕ) → s.word map i ≡ 0)
    → used ((fill_map s map length).word map) k ≡ false
unfolding fill_map used
unfilled s map length k e zeros =
    let z : (if ltb (k / 64) (length / 8) then full_word else s.word map (k / 64)) ≡ 0 =
      ground (arith, zeros (k / 64)) in
    ground (arith, test-zero (k % 64))

flip_bits-frame :
    (n : ℕ) (s : Heap) (map : Ptr) (i : ℕ)
    → flip_bits n s map i ≡ record s { word = (flip_bits n s map i).word }
unfolding flip_bits
flip_bits-frame zero s map i = refl
flip_bits-frame (suc n) s map i =
    flip_bits-frame n (set_word s map (i / 64) (bit_xor (s.word map (i / 64)) (2 ^ (i % 64)))) map
      (i + 1)

pub prepare_map-frame :
    (s : Heap) (slab : Ptr) → prepare_map s slab ≡ record s { word = (prepare_map s slab).word }
unfolding prepare_map fill_map
prepare_map-frame s slab =
    flip_bits-frame (s.color_count slab) (fill_map s (s.color_map slab) (s.color_length slab))
      (s.color_map slab) 0

-- The bits of the objects are those that the filled map had, flipped; the others are left.
pub prepare_map-used :
    (s : Heap) (slab : Ptr) (k : ℕ)
    → let filled = (fill_map s (s.color_map slab) (s.color_length slab)).word (s.color_map slab) in
      used ((prepare_map s slab).word (s.color_map slab)) k
      ≡ (if ltb k (s.color_count slab) then not (used filled k) else used filled k)
unfolding prepare_map
prepare_map-used s slab k =
    flip_bits-used (s.color_count slab) (fill_map s (s.color_map slab) (s.color_length slab))
      (s.color_map slab) 0 k
    ∙ ground arith

module _ (s : Heap) (slab : Ptr) (page count : ℕ) (map : Ptr) where
  -- kmalloc_create computes the length of the bitmap from the count that stands in the page's memory: if
  -- that memory is all zeros, the bitmap is not filled, and every object of the new slab is marked as used
  -- though the slab counts them all as free.
  prepare_map-unfilled :
      (k : ℕ)
      → s.color_count slab ≡ 0
      → ((i : ℕ) → s.word map i ≡ 0)
      → k < count
      → let t =
          prepare_map (describe s slab page count (map_length (s.color_count slab)) map) slab in
        (used (words t slab) k ≡ true) × (t.free_count slab ≡ count)
  unfolding describe
  prepare_map-unfilled k unset zeros h =
      let d = describe s slab page count (map_length (s.color_count slab)) map in
      let t = prepare_map d slab in
      let clear : used ((fill_map d map (map_length (s.color_count slab))).word map) k ≡ false =
        unfilled d map (map_length (s.color_count slab)) k (rw unset refl) zeros in
      subst (λ (q : Heap). (used (words q slab) k ≡ true) × (q.free_count slab ≡ count))
        (sym (prepare_map-frame d slab))
        (ground (arith, prepare_map-used d slab k, clear), ground arith)
