-- ===== src/Paging/Frames.antt =====
-- The mapping of the frame buffer by frame_buffer_init of kernel/debug/printk.c. The row of the cursor and the
-- address of the buffer, which it sets at the end, are left out.
use Prim.Native.Nat.{bit_or}
use s_os.Base.{
  ℕ, zero, suc, ◌+◌, ◌-◌, ◌*◌, ◌/◌, ◌%◌, ◌^◌, ◌≡◌, ◌≢◌, ◌≤◌, ◌<◌, refl, ◌∙◌, sym, ap, Bool, Option,
  some, ◌==◌, ltb, leb, ◌&&◌, if◌then◌else◌, update, update_self, update_ne, arith, Bool-cases, inl,
  inr,
}
use s_os.Base.Monad.{◌>>=◌}
use s_os.Memory.Init.{virt_to_phy}
use s_os.Slab.{Heap}
use s_os.Slab.Kmalloc.{Outcome, phy_to_virt}
use s_os.Paging.{Tables, index, slot, entry_of, pointer_value, page_kernel_dir, page_device}

-- is an address in the 4 KB of a table?
abbrev pub inside : ℕ → ℕ → Bool
inside table q = leb table q && ltb q (table + 4096)

-- the step of the loop with `n` pages to go, where `i` bytes are mapped; `tmp` is the place of the entry for
-- the table. An index does not depend on the bits behind the 64th.
unfoldable pub map_frames : ℕ → Tables → ℕ → ℕ → ℕ → ℕ → Tables
map_frames zero t tmp fb base i = t
map_frames (suc n) t tmp fb base i =
    let tmp1 = entry_of (t.word tmp) 21 (fb + i) in
    map_frames n (record t { word = update t.word tmp1 (bit_or (base + i) page_device) }) tmp fb
      base (i + 2 ^ 21)

module _ (alloc : Heap → Outcome) where
  -- a new table of zeros for the entry at `p`, if that is empty
  unfoldable pub fill_cleared : Tables → ℕ → Option Tables
  fill_cleared s p =
      let fresh : Option Tables = (do
        (table, h) ← alloc s.heap
        (let n = pointer_value table in
            let zeros = λ (q : ℕ). if inside n q then 0 else s.word q in
            some (record s {
              word = update zeros p (bit_or (virt_to_phy n) page_kernel_dir);
              heap = h;
            }))) in
      if s.word p == 0 then fresh else some s

  -- frame_buffer_init for a buffer of `length` bytes at the physical address `base`
  unfoldable pub frame_buffer_init : Tables → ℕ → ℕ → Option Tables
  frame_buffer_init s base length =
      let fb = phy_to_virt base in
      let p4 = entry_of s.cr3 39 fb in
      do
        s1 ← fill_cleared s p4
        s2 ← fill_cleared s1 (entry_of (s1.word p4) 30 fb)
        some (
            map_frames ((length + (2 ^ 21 - 1)) / 2 ^ 21) s2 (entry_of (s1.word p4) 30 fb) fb base
              0)

module _ (tmp fb base e3 : ℕ) (aligned : fb % 2 ^ 21 ≡ 0)
    (apart : (k : ℕ) → k < 512 → slot e3 k ≢ tmp) where
  -- what one step of the loop writes
  step_slot : (j : ℕ) → index 21 fb + j < 512 → index 21 (fb + j * 2 ^ 21) ≡ index 21 fb + j
  step_slot j h = omega arith

  -- the tables after the step for page `j`
  abbrev stepped : Tables → ℕ → Tables
  stepped t j = record t {
    word = update t.word (slot e3 (index 21 fb + j)) (bit_or (base + j * 2 ^ 21) page_device);
  }

  map_frames-step :
      (n : ℕ) (t : Tables) (j : ℕ)
      → t.word tmp ≡ e3
      → index 21 fb + j < 512
      → map_frames (suc n) t tmp fb base (j * 2 ^ 21)
        ≡ map_frames n (stepped t j) tmp fb base ((j + 1) * 2 ^ 21)
  unfolding map_frames
  map_frames-step n t j w room =
      let next : j * 2 ^ 21 + 2 ^ 21 ≡ (j + 1) * 2 ^ 21 = omega arith in
      rw (map_frames, w, step_slot j room, next) refl

  stepped-tmp :
      (t : Tables) (j : ℕ) → t.word tmp ≡ e3 → index 21 fb + j < 512 → (stepped t j).word tmp ≡ e3
  stepped-tmp t j w room =
      update_ne t.word (slot e3 (index 21 fb + j)) (bit_or (base + j * 2 ^ 21) page_device) tmp
        (λ e. apart (index 21 fb + j) room (sym e))
      ∙ w

  pub map_frames-else :
      (n : ℕ) (t : Tables) (j q : ℕ)
      → t.word tmp ≡ e3
      → index 21 fb + j + n ≤ 512
      → ((k : ℕ) → j ≤ k → k < j + n → q ≢ slot e3 (index 21 fb + k))
      → (map_frames n t tmp fb base (j * 2 ^ 21)).word q ≡ t.word q
  unfolding map_frames
  map_frames-else zero t j q w room ne = refl
  map_frames-else (suc n) t j q w room ne =
      let v = bit_or (base + j * 2 ^ 21) page_device in
      ap (λ (u : Tables). u.word q) (map_frames-step n t j w (omega arith))
      ∙ map_frames-else n (stepped t j) (j + 1) q (stepped-tmp t j w (omega arith)) (omega arith)
          (λ k l h. ne k (omega arith) (omega arith))
      ∙ update_ne t.word (slot e3 (index 21 fb + j)) v q (ne j (omega arith) (omega arith))

  pub map_frames-at :
      (n : ℕ) (t : Tables) (j k : ℕ)
      → t.word tmp ≡ e3
      → index 21 fb + j + n ≤ 512
      → j ≤ k
      → k < j + n
      → (map_frames n t tmp fb base (j * 2 ^ 21)).word (slot e3 (index 21 fb + k))
        ≡ bit_or (base + k * 2 ^ 21) page_device
  map_frames-at zero t j k w room low high = absurd (omega arith)
  map_frames-at (suc n) t j k w room low high =
      let w1 = stepped-tmp t j w (omega arith) in
      let q = slot e3 (index 21 fb + k) in
      let v = bit_or (base + j * 2 ^ 21) page_device in
      ap (λ (u : Tables). u.word q) (map_frames-step n t j w (omega arith))
      ∙ elim (Bool-cases (k == j)) [
        | inl same ↦
            let e : k ≡ j = ground arith in
            rw e (
              map_frames-else n (stepped t j) (j + 1) (slot e3 (index 21 fb + j)) w1 (omega arith)
                (λ i l h. omega arith)
              ∙ update_self t.word (slot e3 (index 21 fb + j)) v)
        | inr other ↦
            map_frames-at n (stepped t j) (j + 1) k w1 (omega arith) (ground arith) (omega arith)
      ]

pub map_frames-cr3 :
    (n : ℕ) (t : Tables) (tmp fb base i : ℕ) → (map_frames n t tmp fb base i).cr3 ≡ t.cr3
unfolding map_frames
map_frames-cr3 zero t tmp fb base i = refl
map_frames-cr3 (suc n) t tmp fb base i =
    let tmp1 = entry_of (t.word tmp) 21 (fb + i) in
    map_frames-cr3 n (record t { word = update t.word tmp1 (bit_or (base + i) page_device) }) tmp fb
      base (i + 2 ^ 21)
