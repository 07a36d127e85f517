-- ===== src/Softirq.antt =====
-- Soft interrupts, kernel/idt/softirq.c and kernel/include/softirq.h.
pub mod Pass
mod Tests
use Prim.Native.Nat.{bit_and, bit_or}
use s_os.Base.{
  ℕ, zero, suc, ◌+◌, ◌-◌, ◌^◌, Bool, true, false, Option, none, some, ◌==◌, ltb, if◌then◌else◌,
  update,
}
use s_os.ListHeap.{Ptr}
use s_os.State.{Kernel, SoftirqEntry, Call}

-- `1 << i`, an `int` converted to `unsigned long`. From bit 31 on C leaves the value undefined, so
-- there it is whatever `undef` says.
unfoldable pub int_bit : (ℕ → ℕ) → ℕ → ℕ
int_bit undef i = if ltb i 31 then 2 ^ i else undef i

-- `~x` of an `unsigned long`
abbrev pub complement : ℕ → ℕ
complement x = 2 ^ 64 - 1 - x

module _ {W : Type 0} where
  unfoldable pub register_softirq : Kernel W → ℕ → Ptr → ℕ → Kernel W
  register_softirq s nr action arg = record s {
    softirq_vector = update s.softirq_vector nr (record { action = action; arg = arg });
  }

  unfoldable pub unregister_softirq : Kernel W → ℕ → Kernel W
  unregister_softirq s nr = record s {
    softirq_vector = update s.softirq_vector nr (record { action = 0; arg = 0 });
  }

  unfoldable pub set_softirq_status : Kernel W → ℕ → Kernel W
  set_softirq_status s status = record s { softirq_status = bit_or s.softirq_status status }

  unfoldable pub get_softirq_status : Kernel W → ℕ
  get_softirq_status s = s.softirq_status

  unfoldable pub softirq_init : Kernel W → Kernel W
  softirq_init s = record s {
    softirq_status = 0;
    softirq_vector = λ i. if ltb i 64 then record { action = 0; arg = 0 } else s.softirq_vector i;
  }

module _ {W : Type 0} (undef : ℕ → ℕ) (call : Call W) where
  -- the body of the `for` loop
  unfoldable pub visit : ℕ → Kernel W → Kernel W
  visit i s =
      if bit_and s.softirq_status (int_bit undef i) == 0
      then s
      else let e = s.softirq_vector i in
        let s1 = call e.action e.arg s in
        record s1 { softirq_status = bit_and s1.softirq_status (complement (int_bit undef i)) }

  -- `for (; n > 0; n--, i++)`
  unfoldable pub visits : ℕ → ℕ → Kernel W → Kernel W
  visits zero i s = s
  visits (suc n) i s = visits n (i + 1) (visit i s)

  -- `while (softirq_status)`; `none` means that the fuel ran out.
  unfoldable pub drain : ℕ → Kernel W → Option (Kernel W)
  drain zero s = none
  drain (suc f) s =
      let rest = drain f (visits 64 0 s) in if s.softirq_status == 0 then some s else rest

  unfoldable pub do_softirq : ℕ → Kernel W → Option (Kernel W)
  do_softirq f s = elim (drain f (record s { interrupts = true })) [
    | none ↦ none
    | some t ↦ some (record t { interrupts = false })
  ]
