-- ===== src/Gate/Stacks.antt =====
-- The stacks that the processor finds in the task state segment that set_tss64 of kernel/include/gate.h
-- fills.
use s_os.Base.{ℕ, ◌+◌, ◌*◌, ◌/◌, ◌%◌, ◌^◌, ◌≡◌, ◌≤◌, ◌<◌, zero, suc, refl, arith}
use s_os.Gate.{put_long, set_tss64}

-- eight bytes, from an `unsigned int` on
unfoldable pub get_long : (ℕ → ℕ) → ℕ → ℕ
get_long tss i = tss i + tss (i + 1) * 2 ^ 32

-- the stack pointer for a privilege level, and the entry of the interrupt stack table
abbrev pub level_stack : (ℕ → ℕ) → ℕ → ℕ
level_stack tss k = get_long tss (1 + 2 * k)

abbrev pub interrupt_stack : (ℕ → ℕ) → ℕ → ℕ
interrupt_stack tss k = get_long tss (7 + 2 * k)

halves : (v : ℕ) → v % 2 ^ 32 + v / 2 ^ 32 * 2 ^ 32 ≡ v
halves v = omega arith

module _ (tss rsp ist : ℕ → ℕ) where
  abbrev filled : ℕ → ℕ
  filled =
      set_tss64 tss (rsp 0) (rsp 1) (rsp 2) (ist 1) (ist 2) (ist 3) (ist 4) (ist 5) (ist 6) (ist 7)

  filled-level : (k : ℕ) → k < 3 → level_stack filled k ≡ rsp k
  unfolding set_tss64 put_long get_long
  filled-level zero h = halves (rsp 0)
  filled-level (suc zero) h = halves (rsp 1)
  filled-level (suc (suc zero)) h = halves (rsp 2)
  filled-level (suc (suc (suc k))) h = absurd (omega arith)

  filled-ist : (k : ℕ) → k < 7 → interrupt_stack filled (k + 1) ≡ ist (k + 1)
  unfolding set_tss64 put_long get_long
  filled-ist zero h = halves (ist 1)
  filled-ist (suc zero) h = halves (ist 2)
  filled-ist (suc (suc zero)) h = halves (ist 3)
  filled-ist (suc (suc (suc zero))) h = halves (ist 4)
  filled-ist (suc (suc (suc (suc zero)))) h = halves (ist 5)
  filled-ist (suc (suc (suc (suc (suc zero))))) h = halves (ist 6)
  filled-ist (suc (suc (suc (suc (suc (suc zero)))))) h = halves (ist 7)
  filled-ist (suc (suc (suc (suc (suc (suc (suc k))))))) h = absurd (omega arith)

-- After set_tss64 the processor finds the stack of each of the privilege levels 0 to 2, and each of the
-- seven stacks for interrupts, where it looks for it; the words of the segment at 0, 7 and 8 and from 23
-- on are what they were.
pub set_tss64-stacks :
    (tss rsp ist : ℕ → ℕ)
    → (let t =
          set_tss64 tss
            (rsp 0)
            (rsp 1)
            (rsp 2)
            (ist 1)
            (ist 2)
            (ist 3)
            (ist 4)
            (ist 5)
            (ist 6)
            (ist 7) in
        ((k : ℕ) → k < 3 → level_stack t k ≡ rsp k)
        × ((k : ℕ) → k < 7 → interrupt_stack t (k + 1) ≡ ist (k + 1))
        × (t 0 ≡ tss 0)
        × (t 7 ≡ tss 7)
        × (t 8 ≡ tss 8)
        × ((i : ℕ) → 23 ≤ i → t i ≡ tss i))
unfolding set_tss64 put_long
set_tss64-stacks tss rsp ist =
    (filled-level tss rsp ist, filled-ist tss rsp ist, refl, refl, refl, λ i h. ground arith)
