-- ===== src/Paging/Map.antt =====
-- A page that pagetable_init of kernel/mm/mm.c maps is found at its kernel address.
use Prim.Native.Nat.{bit_or}
use s_os.Base.{
  ◌/◌, ◌*◌, ℕ, ◌+◌, ◌%◌, ◌^◌, ◌≡◌, ◌<◌, ◌≢◌, refl, ◌∙◌, sym, ap, some, ◌==◌, if◌then◌else◌, update,
  update_self, update_ne, arith, Bool-cases, inl, inr,
}
use s_os.Slab.{Heap}
use s_os.Slab.Kmalloc.{Outcome, phy_to_virt}
use s_os.Memory.Init.{virt_to_phy}
use s_os.Paging.{
  Tables, entry_of, new_table, fill_entry, map_at, map_page, ioapic_pagetable_remap, ioapic_address,
  page_device, index, page_kernel_dir, page_kernel_page,
}
use s_os.Paging.Walk.{translate, dir_entry, IsMapped, mapped-translate}

-- The entry that fill_entry leaves for one that holds `old`, if kmalloc returns `n`.
abbrev pub filled : ℕ → ℕ → ℕ
filled old n = if old == 0 then bit_or (virt_to_phy n) page_kernel_dir else old

-- What fill_entry does to the tables, if kmalloc returns `n` and leaves `h`.
record Filled (s : Tables) (p n : ℕ) (h : Heap) (t : Tables) : Type 0 where
  cr3 : t.cr3 ≡ s.cr3
  heap : t.heap ≡ (if s.word p == 0 then h else s.heap)
  filled_in : t.word p ≡ filled (s.word p) n
  elsewhere : (q : ℕ) → q ≢ p → t.word q ≡ s.word q

fill_entry-Filled :
    (alloc : Heap → Outcome) (s : Tables) (p n : ℕ) (h : Heap)
    → alloc s.heap ≡ some (some n, h)
    → (t : Tables) × (fill_entry alloc s p page_kernel_dir ≡ some t) × Filled s p n h t
unfolding fill_entry new_table
fill_entry-Filled alloc s p n h e = elim (Bool-cases (s.word p == 0)) [
  | inl z ↦ (
    record s { word = update s.word p (bit_or (virt_to_phy n) page_kernel_dir); heap = h },
    rw (z, e) refl,
    record {
      cr3 = refl;
      heap = rw z refl;
      filled_in = rw z (update_self s.word p (bit_or (virt_to_phy n) page_kernel_dir));
      elsewhere = λ q ne. update_ne s.word p (bit_or (virt_to_phy n) page_kernel_dir) q ne;
    },
  )
  | inr z ↦ (
    s,
    rw z refl,
    record { cr3 = refl; heap = rw z refl; filled_in = rw z refl; elsewhere = λ q ne. refl },
  )
]

pub filled_odd : (old n : ℕ) → (old ≢ 0 → old % 2 ≡ 1) → filled old n % 2 ≡ 1
filled_odd old n present = elim (Bool-cases (old == 0)) [
  | inl z ↦ rw z (dir_entry (virt_to_phy n) page_kernel_dir refl)
  | inr z ↦ rw z (present (ground arith))
]

-- the entry of the first level for an address, and the place and content of that of the second
abbrev first_entry : Tables → ℕ → ℕ → ℕ
first_entry s p4 n4 = filled (s.word p4) n4

abbrev second_place : Tables → ℕ → ℕ → ℕ → ℕ
second_place s p4 a n4 = entry_of (first_entry s p4 n4) 30 a

abbrev second_entry : Tables → ℕ → ℕ → ℕ → ℕ → ℕ
second_entry s p4 a n4 n3 = filled (s.word (second_place s p4 a n4)) n3

-- The tables for the address `a` can be had: kmalloc returns `n4` and `n3` for those that are missing, the
-- entries in use are present, and the entries of the three levels are at different places.
pub record HasTables (alloc : Heap → Outcome) (s : Tables) (p4 a n4 n3 : ℕ) (h4 h3 : Heap)
    : Type 0 where
  pub table4 : alloc s.heap ≡ some (some n4, h4)
  pub table3 : alloc (if s.word p4 == 0 then h4 else s.heap) ≡ some (some n3, h3)
  pub apart34 : second_place s p4 a n4 ≢ p4
  pub apart24 : entry_of (second_entry s p4 a n4 n3) 21 a ≢ p4
  pub apart23 : entry_of (second_entry s p4 a n4 n3) 21 a ≢ second_place s p4 a n4
  pub used4 : s.word p4 ≢ 0 → s.word p4 % 2 ≡ 1
  pub used3 : s.word (second_place s p4 a n4) ≢ 0 → s.word (second_place s p4 a n4) % 2 ≡ 1

map_at-IsMapped :
    (alloc : Heap → Outcome) (s : Tables) (p4 a address attr n4 n3 : ℕ) (h4 h3 : Heap)
    → HasTables alloc s p4 a n4 n3 h4 h3
    → p4 ≡ entry_of s.cr3 39 a
    → (t : Tables) × (map_at alloc s p4 a address attr ≡ some t)
      × (t.cr3 ≡ s.cr3)
      × IsMapped t.word s.cr3 a (first_entry s p4 n4) (second_entry s p4 a n4 n3) address attr
unfolding map_at
map_at-IsMapped alloc s p4 a address attr n4 n3 h4 h3 o place =
    let p3 = second_place s p4 a n4 in
    let e3 = second_entry s p4 a n4 n3 in
    let p2 = entry_of e3 21 a in
    let (s1, run1, f1) = fill_entry-Filled alloc s p4 n4 h4 o.table4 in
    let w3 : s1.word p3 ≡ s.word p3 = f1.elsewhere p3 o.apart34 in
    let (s2, run2, f2) = fill_entry-Filled alloc s1 p3 n3 h3 (rw f1.heap o.table3) in
    let w2 : s2.word p3 ≡ e3 = f2.filled_in ∙ ap (λ (x : ℕ). filled x n3) w3 in
    let v = bit_or address attr in
    let t = record s2 { word = update s2.word p2 v } in
    let w4 : t.word p4 ≡ first_entry s p4 n4 =
      update_ne s2.word p2 v p4 (λ e. o.apart24 (sym e))
      ∙ f2.elsewhere p4 (λ e. o.apart34 (sym e))
      ∙ f1.filled_in in
    (
      t,
      rw (run1, f1.filled_in, run2, w2) refl,
      f2.cr3 ∙ f1.cr3,
      record {
        level4 = ap t.word (sym place) ∙ w4;
        level3 = update_ne s2.word p2 v p3 (λ e. o.apart23 (sym e)) ∙ w2;
        level2 = update_self s2.word p2 v;
        present4 = filled_odd (s.word p4) n4 o.used4;
        present3 = filled_odd (s.word p3) n3 o.used3;
      },
    )

map_at-translates :
    (alloc : Heap → Outcome) (s : Tables) (p4 a address attr n4 n3 : ℕ) (h4 h3 : Heap)
    → HasTables alloc s p4 a n4 n3 h4 h3
    → p4 ≡ entry_of s.cr3 39 a
    → address < 2 ^ 52
    → address % 2 ^ 21 ≡ 0
    → a % 2 ^ 21 ≡ 0
    → attr < 2 ^ 21
    → attr % 2 ≡ 1
    → attr / 128 % 2 ≡ 1
    → (t : Tables) × (map_at alloc s p4 a address attr ≡ some t)
      × ((off : ℕ) → off < 2 ^ 21 → translate t.word t.cr3 (a + off) ≡ some (address + off))
map_at-translates alloc s p4 a address attr n4 n3 h4 h3 o place small aligned start low odd page =
    let (t, run, same, mapped) = map_at-IsMapped alloc s p4 a address attr n4 n3 h4 h3 o place in
    (
      t,
      run,
      λ off inside. rw same (
          mapped-translate t.word s.cr3 a (first_entry s p4 n4) (second_entry s p4 a n4 n3) address
            attr off mapped small aligned low odd page start inside),
    )

-- The body of pagetable_init's loop maps a page of 2 MB below 2^47, whichever of its two tables were
-- missing: then the processor translates each kernel address of the page to the physical one. The
-- condition is that kmalloc returns the tables that are missing, that the entries in use are present, and
-- that the entries of the three levels are at different places.
pub map_page-translates :
    (alloc : Heap → Outcome) (s : Tables) (address n4 n3 : ℕ) (h4 h3 : Heap)
    → (let a = phy_to_virt address in
        HasTables alloc s (entry_of s.cr3 39 a) a n4 n3 h4 h3
        → address < 2 ^ 47
        → address % 2 ^ 21 ≡ 0
        → (t : Tables) × (map_page alloc s address ≡ some t)
          × ((off : ℕ) → off < 2 ^ 21 → translate t.word t.cr3 (a + off) ≡ some (address + off)))
unfolding map_page
map_page-translates alloc s address n4 n3 h4 h3 o small aligned =
    let a = phy_to_virt address in
    map_at-translates alloc s (entry_of s.cr3 39 a) a address page_kernel_page n4 n3 h4 h3 o refl
      (omega arith) aligned (omega arith) (omega arith) refl refl

-- IOAPIC_pagetable_remap maps the registers of the I/O APIC, if cr3 holds nothing but the address of the
-- table: then the processor translates each kernel address of their 2 MB to the physical one. The
-- condition on the tables is that of map_page-translates.
pub ioapic_pagetable_remap-translates :
    (alloc : Heap → Outcome) (s : Tables) (n4 n3 : ℕ) (h4 h3 : Heap)
    → (let a = phy_to_virt ioapic_address in
        HasTables alloc s (entry_of s.cr3 39 a) a n4 n3 h4 h3
        → s.cr3 % 4096 ≡ 0
        → s.cr3 < 2 ^ 47
        → (t : Tables) × (ioapic_pagetable_remap alloc s ≡ some t)
          × ((off : ℕ)
              → off < 2 ^ 21
              → translate t.word t.cr3 (a + off) ≡ some (ioapic_address + off)))
unfolding ioapic_pagetable_remap
ioapic_pagetable_remap-translates alloc s n4 n3 h4 h3 o aligned small =
    let a = phy_to_virt ioapic_address in
    let p4 : phy_to_virt (s.cr3 + index 39 a * 8) ≡ entry_of s.cr3 39 a = omega arith in
    rw p4 (
      map_at-translates alloc s (entry_of s.cr3 39 a) a ioapic_address page_device n4 n3 h4 h3 o
        refl (omega arith) (omega arith) (omega arith) (omega arith) refl refl)
