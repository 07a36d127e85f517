-- ===== src/Memory/Tests.antt =====
-- An allocation of two pages on the sample machine.
use s_os.Base.{
  false, ◌+◌, if◌then◌else◌, ◌==◌, zero, suc, ℕ, update, ◌≡◌, ◌≤◌, ◌<◌, refl, some, arith,
}
use s_os.Memory.{
  Memory, found, alloc_pages, free_pages, try_zones, find_pages, find_bit, window, take_pages,
}
use s_os.Memory.Sample.{machine}
use s_os.Memory.Bitmap.{used, AreWords}
use s_os.Memory.Init.{E820, no_entries, init_zones, struct_end}
use s_os.Base.Bits.{test_bit}
use s_os.Memory.Search.{alloc_pages-finds}
use s_os.Memory.Runs.{HasPlace}
use s_os.Memory.Alloc.{Taken, alloc_pages-Taken, free_pages-alloc_pages}

machine-AreWords : AreWords machine.bits_map
machine-AreWords w = ground arith

machine-HasPlace : HasPlace machine 3 2
machine-HasPlace q low high = omega arith

abbrev after : Memory
after = take_pages 2 machine 0 1 3

alloc_two : alloc_pages machine 2 2 0 ≡ found 3 after
unfolding alloc_pages try_zones find_pages find_bit window
alloc_two = refl

alloc_pages-Taken_example : (1 ≤ 2) × (2 < 64) × Taken machine after 2 3
alloc_pages-Taken_example =
    alloc_pages-Taken machine after 2 2 0 3 machine-AreWords machine-HasPlace alloc_two

free_pages-alloc_pages_example :
    used (free_pages after (some 3) 2).bits_map 4 ≡ used machine.bits_map 4
free_pages-alloc_pages_example =
    free_pages-alloc_pages machine after 2 2 0 3 machine-AreWords machine-HasPlace alloc_two 4

-- 640 KB of low memory, and 63 MB from 1 MB on.
abbrev map_entries : ℕ → E820
map_entries i =
    if i == 0
    then record { address = 0; length = 0x9fc00; type = 1 }
    else if i == 1
    then record { address = 0x100000; length = 0x3f00000; type = 1 }
    else record { address = 0; length = 0; type = 0 }

abbrev table : ℕ → E820
table = update (update no_entries 0 (map_entries 0)) 1 (map_entries 1)

abbrev table_end : ℕ
table_end = struct_end 0xffff800000200000 table 1 (init_zones machine table 1).zones_size

run-free : (l : ℕ) → l < 2 → used machine.bits_map (5 + l) ≡ false
unfolding used test_bit
run-free zero h = refl
run-free (suc zero) h = refl
run-free (suc (suc l)) h = absurd (omega arith)

alloc_pages-finds_example : (page : ℕ) × (t : Memory) × (alloc_pages machine 2 2 0 ≡ found page t)
alloc_pages-finds_example =
    alloc_pages-finds machine 2 0 5 (omega arith) (omega arith) (omega arith) (machine-AreWords)
      (omega arith) (omega arith) (omega arith) run-free
