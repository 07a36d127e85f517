-- ===== src/Memory/Init/Free.antt =====
-- The pages that init_memory of kernel/mm/mm.c leaves free.
use s_os.Base.{
  some, ltb, leb, update, ◌%◌, ◌^◌, false, ℕ, zero, suc, ◌+◌, ◌≡◌, ◌≤◌, refl, ◌==◌, ◌||◌, arith,
  Bool-cases, inl, inr,
}
use s_os.Memory.{Memory}
use s_os.Memory.Init.{E820, copy_e820, memory_pages}

module _ (m : Memory) (table : ℕ → E820) (last : ℕ) where
  -- the number of pages that the bitmap has
  abbrev pages_of : ℕ
  pages_of = memory_pages table last

-- With 32 entries at most, all of them have a place in the table.
copy_e820-total :
    (n : ℕ) (p table : ℕ → E820) (last i : ℕ)
    → i + n ≤ 32
    → (entries : ℕ → E820) × (l : ℕ) × (copy_e820 n p table last i ≡ some (entries, l))
unfolding copy_e820
copy_e820-total zero p table last i h = (table, last, refl)
copy_e820-total (suc n) p table last i h =
    let entry : E820 = record {
      address = ((table i).address + (p i).address) % 2 ^ 64;
      length = ((table i).length + (p i).length) % 2 ^ 64;
      type = (p i).type;
    } in
    let next = p (i + 1) in
    let rest = copy_e820-total n p (update table i entry) i (i + 1) (omega arith) in
    let short : leb 32 i ≡ false = ground arith in
    elim (Bool-cases (ltb 4 next.type || ltb next.type 1 || (next.length == 0))) [
      | inl ends ↦ (update table i entry, i, rw (short, ends, copy_e820) refl)
      | inr goes ↦ (rest.0, rest.1, rw (short, goes, copy_e820) rest.2)
    ]
