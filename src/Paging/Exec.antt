-- ===== src/Paging/Exec.antt =====
-- The address that do_execve of kernel/sched/task.c maps is found at the page that it takes.
use Prim.Native.Nat.{bit_or}
use s_os.Base.{
  ℕ, ◌+◌, ◌%◌, ◌^◌, ◌≡◌, ◌<◌, ◌≢◌, refl, ◌∙◌, sym, some, update, update_self, update_ne, arith,
}
use s_os.Base.Monad.{◌>>=◌}
use s_os.Slab.{Heap}
use s_os.Slab.Kmalloc.{Outcome}
use s_os.Memory.{Memory, found, alloc_pages, zone_normal, pg_ptable_maped}
use s_os.Memory.Init.{virt_to_phy}
use s_os.Paging.{Tables, entry_of, new_table, map_user, page_user_dir, page_user_page}
use s_os.Paging.Walk.{translate, dir_entry, IsMapped, mapped-translate}

-- the entry for a table that kmalloc returns
abbrev pub user_entry : ℕ → ℕ
user_entry n = bit_or (virt_to_phy n) page_user_dir

new_table_lem :
    (alloc : Heap → Outcome) (s : Tables) (p n : ℕ) (h : Heap)
    → alloc s.heap ≡ some (some n, h)
    → new_table alloc s p page_user_dir
      ≡ some (record s { word = update s.word p (user_entry n); heap = h })
unfolding new_table
new_table_lem alloc s p n h e = rw e refl

-- do_execve's mapping of an address, where kmalloc and alloc_pages return what it asks for: the processor
-- translates the addresses of the user's 2 MB to the page that alloc_pages returned, whatever the tables
-- held before, and every other entry is what it was. The condition is that the entries of the three levels
-- are at different places.
pub map_user-translates :
    (alloc : Heap → Outcome) (s : Tables) (a n4 n3 page : ℕ) (h4 h3 : Heap) (m : Memory)
    → (let p4 = entry_of s.cr3 39 a in
        let p3 = entry_of (user_entry n4) 30 a in
        let p2 = entry_of (user_entry n3) 21 a in
        let address = (m.pages_struct page).phy_address in
        alloc s.heap ≡ some (some n4, h4)
        → alloc h4 ≡ some (some n3, h3)
        → alloc_pages h3.memory zone_normal 1 pg_ptable_maped ≡ found page m
        → p3 ≢ p4
        → p2 ≢ p4
        → p2 ≢ p3
        → address < 2 ^ 52
        → address % 2 ^ 21 ≡ 0
        → a % 2 ^ 21 ≡ 0
        → (t : Tables) × (map_user alloc s a ≡ some t)
          × ((off : ℕ) → off < 2 ^ 21 → translate t.word t.cr3 (a + off) ≡ some (address + off))
          × ((q : ℕ) → q ≢ p4 → q ≢ p3 → q ≢ p2 → t.word q ≡ s.word q))
unfolding map_user
map_user-translates alloc s a n4 n3 page h4 h3 m k4 k3 got d34 d24 d23 small aligned start =
    let p4 = entry_of s.cr3 39 a in
    let p3 = entry_of (user_entry n4) 30 a in
    let p2 = entry_of (user_entry n3) 21 a in
    let address = (m.pages_struct page).phy_address in
    let v = bit_or address page_user_page in
    let w4 = update s.word p4 (user_entry n4) in
    let s1 = record s { word = w4; heap = h4 } in
    let w3 = update w4 p3 (user_entry n3) in
    let word = update w3 p2 v in
    let at4 : w4 p4 ≡ user_entry n4 = update_self s.word p4 (user_entry n4) in
    let at3 : w3 p3 ≡ user_entry n3 = update_self w4 p3 (user_entry n3) in
    let o : IsMapped word s.cr3 a (user_entry n4) (user_entry n3) address page_user_page = record {
      level4 =
          update_ne w3 p2 v p4 (λ e. d24 (sym e))
          ∙ update_ne w4 p3 (user_entry n3) p4 (λ e. d34 (sym e))
          ∙ at4;
      level3 = update_ne w3 p2 v p3 (λ e. d23 (sym e)) ∙ at3;
      level2 = update_self w3 p2 v;
      present4 = dir_entry (virt_to_phy n4) page_user_dir refl;
      present3 = dir_entry (virt_to_phy n3) page_user_dir refl;
    } in
    (
      record s { word = word; heap = record h3 { memory = m } },
      rw
          (
            new_table_lem alloc s p4 n4 h4 k4,
            at4,
            new_table_lem alloc s1 p3 n3 h3 k3,
            ◌>>=◌,
            got,
            at4,
            at3,
          )
          refl,
      (λ off inside.
          mapped-translate word s.cr3 a (user_entry n4) (user_entry n3) address page_user_page off o
            small aligned (omega arith) refl refl start inside),
      (λ q n1 n2 n5.
          update_ne w3 p2 v q n5
          ∙ update_ne w4 p3 (user_entry n3) q n2
          ∙ update_ne s.word p4 (user_entry n4) q n1),
    )
