-- ===== src/Paging/Tests.antt =====
-- Empty page tables, and an allocator that returns tables at 4 MB and 6 MB.
use Prim.Native.Nat.{bit_or}
use s_os.Base.{ℕ, ◌+◌, ◌*◌, ◌≡◌, ◌<◌, ◌≢◌, refl, none, some, ◌==◌, if◌then◌else◌, arith, ◌^◌}
use s_os.Memory.{Memory, found, alloc_pages, try_zones, find_pages, find_bit, window, take_pages}
use s_os.Memory.Sample.{machine}
use s_os.Slab.{Heap}
use s_os.Slab.Kmalloc.{Outcome, phy_to_virt}
use s_os.Paging.{Tables, entry_of, map_page, map_user, page_kernel_dir}
use s_os.Paging.Walk.{translate}
use s_os.Paging.Map.{HasTables, map_page-translates, ioapic_pagetable_remap-translates}
use s_os.Paging.{ioapic_pagetable_remap, ioapic_address}
use s_os.Paging.Frames.{frame_buffer_init}
use s_os.Paging.Buffer.{HasFrames, pages, frame_buffer_init-translates}
use s_os.Paging.Exec.{user_entry, map_user-translates}

abbrev heap : Heap
heap = record {
  memory = machine;
  links = record { next = λ a. a; prev = λ a. a };
  page = λ a. 0;
  vaddress = λ a. 0;
  using_count = λ a. 0;
  free_count = λ a. 0;
  color_length = λ a. 0;
  color_count = λ a. 0;
  color_map = λ a. 0;
  word = λ map i. 0;
  cache = λ i. record {
    size = 32;
    total_using = 0;
    total_free = 0;
    cache_pool = 0;
    constructor = none;
    destructor = none;
  };
}

-- the page of slab 0 tells the first call from the second
abbrev next_heap : Heap
next_heap = record heap { page = λ a. 1 }

abbrev alloc : Heap → Outcome
alloc h =
    if h.page 0 == 0
    then some (some (phy_to_virt 0x400000), next_heap)
    else some (some (phy_to_virt 0x600000), next_heap)

-- the entry for a table at a physical address
abbrev kernel_entry : ℕ → ℕ
kernel_entry table = bit_or table page_kernel_dir

abbrev tables : Tables
tables = record { word = λ a. 0; heap = heap; cr3 = 0x101000 }

empty-HasTables :
    (a : ℕ)
    → entry_of (kernel_entry 0x400000) 30 a ≢ entry_of 0x101000 39 a
    → entry_of (kernel_entry 0x600000) 21 a ≢ entry_of 0x101000 39 a
    → entry_of (kernel_entry 0x600000) 21 a ≢ entry_of (kernel_entry 0x400000) 30 a
    → HasTables alloc tables
        (entry_of 0x101000 39 a)
        a
        (phy_to_virt 0x400000)
        (phy_to_virt 0x600000)
        next_heap
        next_heap
empty-HasTables a d34 d24 d23 = record {
  table4 = refl;
  table3 = refl;
  apart34 = d34;
  apart24 = d24;
  apart23 = d23;
  used4 = λ n. absurd (n refl);
  used3 = λ n. absurd (n refl);
}

map_page-translates_example :
    (t : Tables) × (map_page alloc tables 0x800000 ≡ some t)
    × ((off : ℕ)
        → off < 2 ^ 21
        → translate t.word t.cr3 (phy_to_virt 0x800000 + off) ≡ some (0x800000 + off))
map_page-translates_example =
    map_page-translates alloc tables 0x800000 (phy_to_virt 0x400000) (phy_to_virt 0x600000)
      next_heap next_heap
      (empty-HasTables (phy_to_virt 0x800000) (omega arith) (omega arith) (omega arith))
      (omega arith) (omega arith)

ioapic_pagetable_remap-translates_example :
    (t : Tables) × (ioapic_pagetable_remap alloc tables ≡ some t)
    × ((off : ℕ)
        → off < 2 ^ 21
        → translate t.word t.cr3 (phy_to_virt ioapic_address + off) ≡ some (ioapic_address + off))
ioapic_pagetable_remap-translates_example =
    ioapic_pagetable_remap-translates alloc tables (phy_to_virt 0x400000) (phy_to_virt 0x600000)
      next_heap next_heap
      (empty-HasTables (phy_to_virt ioapic_address) (omega arith) (omega arith) (omega arith))
      (omega arith) (omega arith)

abbrev after : Memory
after = take_pages 1 machine 0 1 3

takes_page : alloc_pages machine 2 1 1 ≡ found 3 after
unfolding alloc_pages try_zones find_pages find_bit window
takes_page = refl

map_user-translates_example :
    (t : Tables) × (map_user alloc tables 0x800000 ≡ some t)
    × ((off : ℕ) → off < 2 ^ 21 → translate t.word t.cr3 (0x800000 + off) ≡ some (3 * 2 ^ 21 + off))
    × ((q : ℕ)
        → q ≢ entry_of 0x101000 39 0x800000
        → q ≢ entry_of (user_entry (phy_to_virt 0x400000)) 30 0x800000
        → q ≢ entry_of (user_entry (phy_to_virt 0x600000)) 21 0x800000
        → t.word q ≡ 0)
unfolding take_pages s_os.Memory.take_page
map_user-translates_example =
    map_user-translates alloc tables 0x800000 (phy_to_virt 0x400000) (phy_to_virt 0x600000) 3
      next_heap next_heap after refl refl takes_page (omega arith) (omega arith) (omega arith)
      (omega arith) (omega arith) (omega arith)

-- the kernel address of a frame buffer at 3.5 GB
abbrev buffer : ℕ
buffer = phy_to_virt 0xe0000000

buffer-HasFrames :
    HasFrames alloc tables buffer
      (pages 0x300000)
      (phy_to_virt 0x400000)
      (phy_to_virt 0x600000)
      next_heap
      next_heap
      (entry_of 0x101000 39 buffer)
      (kernel_entry 0x400000)
      (entry_of (kernel_entry 0x400000) 30 buffer)
      (kernel_entry 0x600000)
buffer-HasFrames = record {
  place4 = refl;
  entry4 = refl;
  place3 = refl;
  entry3 = refl;
  table4 = refl;
  table3 = refl;
  apart34 = omega arith;
  kept4 = refl;
  apart3 = λ k h. omega arith;
  apart4 = λ k h. omega arith;
  used4 = λ n. absurd (n refl);
  used3 = λ n. absurd (n refl);
  room = omega arith;
}

frame_buffer_init-translates_example :
    (t : Tables) × (frame_buffer_init alloc tables 0xe0000000 0x300000 ≡ some t)
    × ((off : ℕ) → off < 0x300000 → translate t.word t.cr3 (buffer + off) ≡ some (0xe0000000 + off))
frame_buffer_init-translates_example =
    frame_buffer_init-translates alloc tables 0xe0000000 0x300000 (phy_to_virt 0x400000)
      (phy_to_virt 0x600000) next_heap next_heap (entry_of 0x101000 39 buffer)
      (kernel_entry 0x400000) (entry_of (kernel_entry 0x400000) 30 buffer) (kernel_entry 0x600000)
      buffer-HasFrames refl (omega arith)
