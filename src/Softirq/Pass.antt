-- ===== src/Softirq/Pass.antt =====
-- What do_softirq of kernel/idt/softirq.c runs, and in which order.
use Prim.Native.Nat.{bit_and}
use s_os.Base.{ℕ, zero, suc, ◌+◌, ◌^◌, ◌≡◌, ◌<◌, false, not, ◌&&◌, ◌==◌, if◌then◌else◌, arith}
use s_os.Base.Bits.{test_bit, test-and, test-pow, test-complement, and_pow-zero, pow_lt}
use s_os.ListHeap.{Ptr}
use s_os.State.{Kernel, SoftirqEntry, Call}
use s_os.Softirq.{int_bit, complement, visit}

-- The specification: the actions of the set bits among `i`, …, `i + n - 1`, in that order, once.
unfoldable pub act_all : {W : Type 0} → (Ptr → ℕ → W → W) → ℕ → ℕ → ℕ → (ℕ → SoftirqEntry) → W → W
act_all act zero i status v w = w
act_all act (suc n) i status v w =
    act_all act n (i + 1) status v (if test_bit status i then act (v i).action (v i).arg w else w)

clear-bit :
    (status i k : ℕ)
    → i < 64
    → k < 64
    → test_bit (bit_and status (complement (2 ^ i))) k ≡ (test_bit status k && not (k == i))
clear-bit status i k hi hk = ground (
  arith,
  test-and status (complement (2 ^ i)) k,
  test-complement 64 (2 ^ i) k,
  test-pow i k,
  pow_lt i 64,
)

-- the status after the visit of bit `i`
abbrev drop_bit : ℕ → ℕ → ℕ
drop_bit status i = if test_bit status i then bit_and status (complement (2 ^ i)) else status

module _ {W : Type 0} (undef : ℕ → ℕ) (call : Call W) where
  -- A bit that is visited is clear afterwards, whatever its action did: a request that is raised for
  -- a soft interrupt while its own action runs is lost.
  visit-clears :
      (i : ℕ) (s : Kernel W) → i < 31 → test_bit (visit undef call i s).softirq_status i ≡ false
  unfolding visit int_bit
  visit-clears i s h = ground (
    arith,
    and_pow-zero s.softirq_status i,
    clear-bit (call (s.softirq_vector i).action (s.softirq_vector i).arg s).softirq_status i i,
  )
