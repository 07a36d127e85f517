-- ===== src/Gate/Tests.antt =====
-- A gate, the descriptor of a task state segment, and the segment, in empty tables.
use s_os.Base.{ℕ, ◌+◌, ◌*◌, ◌≡◌, ◌≢◌, ◌≤◌, ◌<◌, arith}
use s_os.Gate.{set_tss_descriptor, set_tss64}
use s_os.Gate.Tss.{tss_at, set_tss_descriptor-decodes}
use s_os.Gate.Stacks.{level_stack, interrupt_stack, set_tss64-stacks}

abbrev empty : ℕ → ℕ
empty i = 0

set_tss_descriptor-decodes_example :
    (tss_at (set_tss_descriptor empty 10 0xffff80000012d000) 10
      ≡ record { base = 0xffff80000012d000; limit = 103; access = 0x89 })
    × ((i : ℕ) → i ≢ 10 → i ≢ 11 → set_tss_descriptor empty 10 0xffff80000012d000 i ≡ 0)
set_tss_descriptor-decodes_example =
    set_tss_descriptor-decodes empty 10 0xffff80000012d000 (omega arith)

abbrev stack : ℕ → ℕ
stack k = 0xffff800000200000 + k * 32768

abbrev segment : ℕ → ℕ
segment =
    set_tss64 empty (stack 0) (stack 1) (stack 2) (stack 1) (stack 2) (stack 3) (stack 4) (stack 5)
      (stack 6) (stack 7)

set_tss64-stacks_example :
    ((k : ℕ) → k < 3 → level_stack segment k ≡ stack k)
    × ((k : ℕ) → k < 7 → interrupt_stack segment (k + 1) ≡ stack (k + 1))
    × (segment 0 ≡ 0)
    × (segment 7 ≡ 0)
    × (segment 8 ≡ 0)
    × ((i : ℕ) → 23 ≤ i → segment i ≡ 0)
set_tss64-stacks_example = set_tss64-stacks empty stack stack
