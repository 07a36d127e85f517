-- ===== src/Paging/Buffer.antt =====
-- After frame_buffer_init of kernel/debug/printk.c the frame buffer is found at its kernel address.
use Prim.Native.Nat.{bit_or}
use s_os.Base.{
  ℕ, ◌+◌, ◌-◌, ◌*◌, ◌/◌, ◌%◌, ◌^◌, ◌≡◌, ◌≢◌, ◌≤◌, ◌<◌, refl, ◌∙◌, sym, ap, false, some, ◌==◌, ◌&&◌,
  if◌then◌else◌, update, update_self, update_ne, arith, Bool-cases, inl, inr,
}
use s_os.Memory.Init.{virt_to_phy}
use s_os.Slab.{Heap}
use s_os.Slab.Kmalloc.{Outcome, phy_to_virt}
use s_os.Paging.{Tables, index, slot, entry_of, page_kernel_dir, page_device}
use s_os.Paging.Map.{filled, filled_odd}
use s_os.Paging.Walk.{translate, IsMapped, mapped-translate}
use s_os.Paging.Frames.{
  inside, map_frames, fill_cleared, frame_buffer_init, map_frames-else, map_frames-at,
  map_frames-cr3,
}

-- What fill_cleared does to the tables, if kmalloc returns `n` and leaves `h`.
record Cleared (s : Tables) (p n : ℕ) (h : Heap) (t : Tables) : Type 0 where
  cr3 : t.cr3 ≡ s.cr3
  heap : t.heap ≡ (if s.word p == 0 then h else s.heap)
  filled_in : t.word p ≡ filled (s.word p) n
  elsewhere : (q : ℕ) → q ≢ p → t.word q ≡ (if (s.word p == 0) && inside n q then 0 else s.word q)

fill_cleared-Cleared :
    (alloc : Heap → Outcome) (s : Tables) (p n : ℕ) (h : Heap)
    → alloc s.heap ≡ some (some n, h)
    → (t : Tables) × (fill_cleared alloc s p ≡ some t) × Cleared s p n h t
unfolding fill_cleared
fill_cleared-Cleared alloc s p n h e =
    let zeros = λ (q : ℕ). if inside n q then 0 else s.word q in
    let v = bit_or (virt_to_phy n) page_kernel_dir in
    elim (Bool-cases (s.word p == 0)) [
      | inl z ↦ (
        record s { word = update zeros p v; heap = h },
        rw (z, e) refl,
        record {
          cr3 = refl;
          heap = rw z refl;
          filled_in = rw z (update_self zeros p v);
          elsewhere = λ q ne. rw z (update_ne zeros p v q ne);
        },
      )
      | inr z ↦ (
        s,
        rw z refl,
        record {
          cr3 = refl;
          heap = rw z refl;
          filled_in = rw z refl;
          elsewhere = λ q ne. rw z refl;
        },
      )
    ]

-- the number of pages of 2 MB for a length
abbrev pub pages : ℕ → ℕ
pages length = (length + (2 ^ 21 - 1)) / 2 ^ 21

-- the entry of the second level before it is filled, and after that
abbrev old_entry : Tables → ℕ → ℕ → ℕ → ℕ
old_entry s p4 p3 n4 = if (s.word p4 == 0) && inside n4 p3 then 0 else s.word p3

-- The tables for `n` pages from `fb` on can be had: kmalloc returns `n4` and `n3` for those that are missing,
-- the entries in use are present, the entries of the three levels are at different places, and the
-- pages lie in one table.
pub record HasFrames (alloc : Heap → Outcome) (s : Tables) (fb n n4 n3 : ℕ) (h4 h3 : Heap)
    (p4 e4 p3 e3 : ℕ) : Type 0 where
  pub place4 : p4 ≡ entry_of s.cr3 39 fb
  pub entry4 : e4 ≡ filled (s.word p4) n4
  pub place3 : p3 ≡ entry_of e4 30 fb
  pub entry3 : e3 ≡ filled (old_entry s p4 p3 n4) n3
  pub table4 : alloc s.heap ≡ some (some n4, h4)
  pub table3 : alloc (if s.word p4 == 0 then h4 else s.heap) ≡ some (some n3, h3)
  pub apart34 : p3 ≢ p4
  pub kept4 : inside n3 p4 ≡ false
  pub apart3 : (k : ℕ) → k < 512 → slot e3 k ≢ p3
  pub apart4 : (k : ℕ) → k < 512 → slot e3 k ≢ p4
  pub used4 : s.word p4 ≢ 0 → s.word p4 % 2 ≡ 1
  pub used3 : old_entry s p4 p3 n4 ≢ 0 → old_entry s p4 p3 n4 % 2 ≡ 1
  pub room : index 21 fb + n ≤ 512

frame_buffer_init-IsMapped :
    (alloc : Heap → Outcome) (s : Tables) (base length n4 n3 : ℕ) (h4 h3 : Heap) (p4 e4 p3 e3 : ℕ)
    → HasFrames alloc s (phy_to_virt base) (pages length) n4 n3 h4 h3 p4 e4 p3 e3
    → phy_to_virt base % 2 ^ 21 ≡ 0
    → (t : Tables) × (frame_buffer_init alloc s base length ≡ some t)
      × (t.cr3 ≡ s.cr3)
      × ((k : ℕ)
          → k < pages length
          → IsMapped t.word s.cr3
              (phy_to_virt base + k * 2 ^ 21)
              e4
              e3
              (base + k * 2 ^ 21)
              page_device)
unfolding frame_buffer_init
frame_buffer_init-IsMapped alloc s base length n4 n3 h4 h3 p4 e4 p3 e3 o aligned =
    let fb = phy_to_virt base in
    let n = pages length in
    let (s1, run1, f1) = fill_cleared-Cleared alloc s p4 n4 h4 o.table4 in
    let w4 : s1.word p4 ≡ e4 = f1.filled_in ∙ sym o.entry4 in
    let old3 : s1.word p3 ≡ old_entry s p4 p3 n4 = f1.elsewhere p3 o.apart34 in
    let (s2, run2, f2) = fill_cleared-Cleared alloc s1 p3 n3 h3 (rw f1.heap o.table3) in
    let w3 : s2.word p3 ≡ e3 = f2.filled_in ∙ ap (λ (x : ℕ). filled x n3) old3 ∙ sym o.entry3 in
    let w4' : s2.word p4 ≡ e4 =
      ground (arith, f2.elsewhere p4 (λ e. o.apart34 (sym e)), o.kept4, w4) in
    let t = map_frames n s2 p3 fb base 0 in
    let x = index 21 fb in
    let same4 : t.word p4 ≡ e4 =
      map_frames-else p3 fb base e3 aligned o.apart3 n s2 0 p4 w3 (omega (arith, o.room))
        (λ i l h e. o.apart4 (x + i) (omega (arith, o.room)) (sym e))
      ∙ w4' in
    let same3 : t.word p3 ≡ e3 =
      map_frames-else p3 fb base e3 aligned o.apart3 n s2 0 p3 w3 (omega (arith, o.room))
        (λ i l h e. o.apart3 (x + i) (omega (arith, o.room)) (sym e))
      ∙ w3 in
    (
      t,
      rw (sym o.place4, run1, w4, sym o.place3, run2) refl,
      map_frames-cr3 n s2 p3 fb base 0 ∙ f2.cr3 ∙ f1.cr3,
      λ k h.
          let i4 : index 39 (fb + k * 2 ^ 21) ≡ index 39 fb = omega (arith, o.room) in
          let i3 : index 30 (fb + k * 2 ^ 21) ≡ index 30 fb = omega (arith, o.room) in
          let i2 : index 21 (fb + k * 2 ^ 21) ≡ x + k = omega (arith, o.room) in
          record {
            level4 = rw (i4, sym o.place4) same4;
            level3 = rw (i3, sym o.place3) same3;
            level2 = rw i2 (
                map_frames-at p3 fb base e3 aligned o.apart3 n s2 0 k w3 (omega (arith, o.room))
                  (omega arith) (omega (arith, h)));
            present4 = rw o.entry4 (filled_odd (s.word p4) n4 o.used4);
            present3 = rw o.entry3 (filled_odd (old_entry s p4 p3 n4) n3 o.used3);
          },
    )

-- After frame_buffer_init the processor translates each kernel address of the frame buffer, of any length, to
-- the physical one. The condition is that kmalloc returns the tables that are missing, that the entries
-- in use are present, that the entries of the three levels are at different places, and that the buffer
-- starts at a multiple of 2 MB below 2^47 and does not leave the gigabyte that it starts in.
pub frame_buffer_init-translates :
    (alloc : Heap → Outcome) (s : Tables) (base length n4 n3 : ℕ) (h4 h3 : Heap) (p4 e4 p3 e3 : ℕ)
    → HasFrames alloc s (phy_to_virt base) (pages length) n4 n3 h4 h3 p4 e4 p3 e3
    → base % 2 ^ 21 ≡ 0
    → base < 2 ^ 47
    → (t : Tables) × (frame_buffer_init alloc s base length ≡ some t)
      × ((off : ℕ)
          → off < length
          → translate t.word t.cr3 (phy_to_virt base + off) ≡ some (base + off))
frame_buffer_init-translates alloc s base length n4 n3 h4 h3 p4 e4 p3 e3 o aligned small =
    let fb = phy_to_virt base in
    let start : fb % 2 ^ 21 ≡ 0 = omega arith in
    let (t, run, same, mapped) =
      frame_buffer_init-IsMapped alloc s base length n4 n3 h4 h3 p4 e4 p3 e3 o start in
    (
      t,
      run,
      λ off h.
          let k = off / 2 ^ 21 in
          let r = off % 2 ^ 21 in
          let inside_pages : k < pages length = omega arith in
          let e : fb + off ≡ fb + k * 2 ^ 21 + r = omega arith in
          let e' : base + off ≡ base + k * 2 ^ 21 + r = omega arith in
          rw (same, e, e')
            (mapped-translate t.word s.cr3 (fb + k * 2 ^ 21) e4 e3 (base + k * 2 ^ 21) page_device r
              (mapped k inside_pages) (omega (arith, o.room)) (omega arith) (omega arith) refl refl
              (omega arith) (omega arith)),
    )
