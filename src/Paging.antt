-- ===== src/Paging.antt =====
-- The page tables: pagetable_init of kernel/mm/mm.c, and the mapping that do_execve of
-- kernel/sched/task.c makes, with the macros of kernel/include/mm.h; IOAPIC_pagetable_remap of
-- kernel/device/pic/APIC.c, without the addresses of the registers that it notes and its prints.
--
-- `word` is the memory in which the tables lie, by its kernel address. kmalloc does not clear what it
-- returns, and works on the heap alone. A zone's pages begin with the one at its start address.
pub mod Map
pub mod Walk
pub mod Exec
pub mod Frames
pub mod Buffer
mod Tests
use Prim.Native.Nat.{bit_and, bit_or}
use s_os.Base.{
  ℕ, zero, suc, ◌+◌, ◌-◌, ◌*◌, ◌/◌, ◌%◌, ◌^◌, Bool, Option, none, some, ◌==◌, not, ◌&&◌,
  if◌then◌else◌, update,
}
use s_os.Base.Monad.{◌>>=◌}
use s_os.ListHeap.{Ptr}
use s_os.State.{this_task}
use s_os.Memory.{Memory, Result, found, null, no_return, alloc_pages, zone_normal, pg_ptable_maped}
use s_os.Memory.Init.{virt_to_phy}
use s_os.Slab.{Heap}
use s_os.Slab.Kmalloc.{Outcome, kmalloc, phy_to_virt}
use s_os.Task.{Tasks, Regs, pf_kthread}

pub record Tables : Type 0 where
  pub word : ℕ → ℕ
  pub heap : Heap
  pub cr3 : ℕ

-- PAGE_KERNEL_GDT and PAGE_KERNEL_Dir, PAGE_KERNEL_Page, PAGE_USER_GDT and PAGE_USER_Dir, PAGE_USER_Page
abbrev pub page_kernel_dir : ℕ
page_kernel_dir = 0x3

abbrev pub page_kernel_page : ℕ
page_kernel_page = 0x83

abbrev pub page_user_dir : ℕ
page_user_dir = 0x7

abbrev pub page_user_page : ℕ
page_user_page = 0x87

-- `PAGE_KERNEL_Page | PAGE_PWT | PAGE_PCD`, for the registers of devices
abbrev pub page_device : ℕ
page_device = 0x9b

-- the registers of the I/O APIC
abbrev pub ioapic_address : ℕ
ioapic_address = 0xfec00000

-- the number of the entry for an address in a table, by the level's shift
abbrev pub index : ℕ → ℕ → ℕ
index shift a = a / 2 ^ shift % 512

-- where the entry of an index is, in the table that a register or an entry points to
abbrev pub slot : ℕ → ℕ → ℕ
slot entry i = phy_to_virt (entry / 4096 * 4096) + i * 8

-- the entry for an address in the table of `entry`
abbrev pub entry_of : ℕ → ℕ → ℕ → ℕ
entry_of entry shift a = slot entry (index shift a)

abbrev pub pointer_value : Option Ptr → ℕ
pointer_value none = 0
pointer_value (some p) = p

module _ (alloc : Heap → Outcome) where
  -- A new table for the entry at `p`, which is used without a test for NULL.
  unfoldable pub new_table : Tables → ℕ → ℕ → Option Tables
  new_table s p attr = do
    (table, h) ← alloc s.heap
    some (record s {
      word = update s.word p (bit_or (virt_to_phy (pointer_value table)) attr);
      heap = h;
    })

  -- the same if the entry is empty
  unfoldable pub fill_entry : Tables → ℕ → ℕ → Option Tables
  fill_entry s p attr = let fresh = new_table s p attr in if s.word p == 0 then fresh else some s

  -- The entries of the three levels for the address `a`, the first of them at `p4`; the page is at `address`.
  unfoldable pub map_at : Tables → ℕ → ℕ → ℕ → ℕ → Option Tables
  map_at s p4 a address attr = do
    s1 ← fill_entry s p4 page_kernel_dir
    s2 ← fill_entry s1 (entry_of (s1.word p4) 30 a) page_kernel_dir
    (let p2 = entry_of (s2.word (entry_of (s1.word p4) 30 a)) 21 a in
        some (record s2 { word = update s2.word p2 (bit_or address attr) }))

  -- the body of the inner loop of pagetable_init, for the page at a physical address
  unfoldable pub map_page : Tables → ℕ → Option Tables
  map_page s address =
      let a = phy_to_virt address in map_at s (entry_of s.cr3 39 a) a address page_kernel_page

  -- IOAPIC_pagetable_remap, which takes all of cr3 for the address of the table
  unfoldable pub ioapic_pagetable_remap : Tables → Option Tables
  ioapic_pagetable_remap s =
      let a = phy_to_virt ioapic_address in
      map_at s (phy_to_virt (s.cr3 + index 39 a * 8)) a ioapic_address page_device

  -- the inner loop, with `n` pages to go
  unfoldable pub map_pages : ℕ → Tables → ℕ → Option Tables
  map_pages zero s page = some s
  map_pages (suc n) s page = do
    s1 ← map_page s (s.heap.memory.pages_struct page).phy_address
    map_pages n s1 (page + 1)

  -- the outer loop, with `n` zones to go
  unfoldable pub map_zones : ℕ → Tables → ℕ → Option Tables
  map_zones zero s i = some s
  map_zones (suc n) s i =
      let m = s.heap.memory in
      let z = m.zones_struct i in
      let first = z.zone_start_address / 2 ^ 21 in
      let pages = (z.zone_end_address - z.zone_start_address) / 2 ^ 21 in
      let rest = map_pages pages s first >>= λ s1. map_zones n s1 (i + 1) in
      if not (m.zone_unmaped_index == 0) && (i == m.zone_unmaped_index) then some s else rest

unfoldable pub pagetable_init : ℕ → ℕ → Tables → Option Tables
pagetable_init depth f s = map_zones (kmalloc depth f 4096) s.heap.memory.zones_size s 0

-- The mapping of the address `a` by do_execve: both tables are new, whatever the entries were.
unfoldable pub map_user : (Heap → Outcome) → Tables → ℕ → Option Tables
map_user alloc s a =
    let p4 = entry_of s.cr3 39 a in
    do
      s1 ← new_table alloc s p4 page_user_dir
      (let p3 = entry_of (s1.word p4) 30 a in
          do
            s2 ← new_table alloc s1 p3 page_user_dir
            (let p2 = entry_of (s2.word p3) 21 a in
                elim (alloc_pages s2.heap.memory zone_normal 1 pg_ptable_maped) [
                  | null ↦ none
                  | no_return ↦ none
                  | found page m ↦
                      let h = s2.heap in
                      some (record s2 {
                        word =
                            update s2.word p2
                              (bit_or (m.pages_struct page).phy_address page_user_page);
                        heap = record h { memory = m };
                      })
                ]))

-- do_execve without its copy of the program. The physical pages are those of the heap.
unfoldable pub do_execve :
    {W : Type 0} → ℕ → ℕ → Tasks W → Tables → Regs → Option (ℕ × Regs × Tasks W × Tables)
do_execve depth f s tables regs = do
  t ← map_user (kmalloc depth f 4096) tables 0x800000
  (let cur = this_task s.kernel in
      let kernel_thread = not (bit_and (s.kernel.flags cur) pf_kthread == 0) in
      let limit =
        if kernel_thread then s.addr_limit else update s.addr_limit cur 0xffff800000000000 in
      some (
        0,
        record regs { rdx = 0x800000; rcx = 0xa00000; rax = 1; ds = 0; es = 0 },
        record s { addr_limit = limit },
        t,
      ))
