-- ===== src/Scheduler/Timeslice.antt =====
-- The time slice that update_cur_runtime and init_timeslice of kernel/sched/scheduler.c keep.
use Prim.Native.Nat.{bit_or}
use s_os.Base.{
  ℕ, zero, suc, ◌+◌, ◌≡◌, ◌≤◌, refl, ◌||◌, ◌&&◌, Option, none, some, ◌==◌, arith, if◌then◌else◌,
}
use s_os.Base.Bits.{test_bit, test-or, test-pow}
use s_os.Base.Int.{ℤ, pos, negsuc, ◌-ℤ◌, leb_ℤ}
use s_os.ListHeap.{Ptr}
use s_os.State.{Kernel, this_task}
use s_os.Scheduler.{tick_cost, update_cur_runtime, init_timeslice, renew_timeslice, need_schedule}

tick_cost-pos : (p : ℤ) → 1 ≤ tick_cost p
unfolding tick_cost
tick_cost-pos (pos zero) = omega arith
tick_cost-pos (pos (suc zero)) = omega arith
tick_cost-pos (pos (suc (suc n))) = omega arith
tick_cost-pos (negsuc n) = omega arith

tick_cost-le : (p : ℤ) → tick_cost p ≤ 2
unfolding tick_cost
tick_cost-le (pos zero) = omega arith
tick_cost-le (pos (suc zero)) = omega arith
tick_cost-le (pos (suc (suc n))) = omega arith
tick_cost-le (negsuc n) = omega arith

need_schedule-bits : (w i : ℕ) → test_bit (bit_or w need_schedule) i ≡ (test_bit w i || (i == 1))
need_schedule-bits w i = ground (arith, test-or w 2 i, test-pow 1 i)

module _ {W : Type 0} (s : Kernel W) where
  -- A tick costs the running task one or two units of time. It adds as much to that task's vruntime and
  -- to no other's, takes it from the time left, and sets NEED_SCHEDULE in the task's flags exactly if no
  -- time is left then; no other flag changes.
  update_cur_runtime-charges :
      (1 ≤ tick_cost (s.priority (this_task s)))
      × (tick_cost (s.priority (this_task s)) ≤ 2)
      × ((p : Ptr)
          → (update_cur_runtime s).vruntime p ≡ (
              if p == this_task s
              then s.vruntime p + tick_cost (s.priority (this_task s))
              else s.vruntime p))
      × ((update_cur_runtime s).cpu_exec_task_jiffies s.cpu
          ≡ s.cpu_exec_task_jiffies s.cpu -ℤ pos (tick_cost (s.priority (this_task s))))
      × ((p : Ptr) (i : ℕ)
          → test_bit ((update_cur_runtime s).flags p) i ≡ (
              test_bit (s.flags p) i
              || ((p == this_task s)
                  && ((i == 1)
                      && leb_ℤ ((update_cur_runtime s).cpu_exec_task_jiffies s.cpu) (pos 0)))))
  unfolding update_cur_runtime
  update_cur_runtime-charges = (
    tick_cost-pos (s.priority (this_task s)),
    tick_cost-le (s.priority (this_task s)),
    (λ p. ground arith),
    ground arith,
    (λ p i. ground (arith, need_schedule-bits (s.flags (this_task s)) i)),
  )

-- `n` rounds of a tick that is followed by init_timeslice for a task.
unfoldable pub rounds : {W : Type 0} → (ℕ → Ptr) → ℕ → Kernel W → Option (Kernel W)
rounds who zero s = some s
rounds who (suc n) s = elim (init_timeslice (update_cur_runtime s) (who n)) [
  | none ↦ none
  | some t ↦ rounds who n t
]

init_timeslice-negative :
    {W : Type 0} (s : Kernel W) (tsk : Ptr) (n : ℕ)
    → s.cpu_exec_task_jiffies s.cpu ≡ negsuc n
    → init_timeslice s tsk ≡ some s
unfolding init_timeslice renew_timeslice
init_timeslice-negative s tsk n e = rw (e, init_timeslice)

tick-negative :
    {W : Type 0} (s : Kernel W) (n : ℕ)
    → s.cpu_exec_task_jiffies s.cpu ≡ negsuc n
    → (update_cur_runtime s).cpu_exec_task_jiffies s.cpu
      ≡ negsuc (n + tick_cost (s.priority (this_task s)))
unfolding update_cur_runtime
tick-negative s n e = ground (arith, tick_cost-pos (s.priority (this_task s)))

same_cpu :
    {W : Type 0} (s : Kernel W) {z : ℤ}
    → (update_cur_runtime s).cpu_exec_task_jiffies s.cpu ≡ z
    → (update_cur_runtime s).cpu_exec_task_jiffies (update_cur_runtime s).cpu ≡ z
unfolding update_cur_runtime
same_cpu s e = e

-- Time that has fallen below zero is never renewed: init_timeslice sets a new slice at exactly zero only.
-- After any number of ticks, for whatever tasks init_timeslice is called, the time left is still negative.
pub rounds-negative :
    {W : Type 0} (who : ℕ → Ptr) (k : ℕ) (s : Kernel W) (n : ℕ)
    → s.cpu_exec_task_jiffies s.cpu ≡ negsuc n
    → (t : Kernel W) × (m : ℕ) × (rounds who k s ≡ some t)
      × (t.cpu_exec_task_jiffies t.cpu ≡ negsuc m)
      × (n + k ≤ m)
unfolding rounds
rounds-negative who zero s n e = (s, n, refl, e, omega arith)
rounds-negative who (suc k) s n e =
    let s1 = update_cur_runtime s in
    let e1 = tick-negative s n e in
    let c = tick_cost (s.priority (this_task s)) in
    let (t, m, r, em, le) = rounds-negative who k s1 (n + c) (same_cpu s e1) in
    let keep = init_timeslice-negative s1 (who k) (n + c) (same_cpu s e1) in
    (t, m, rw (keep, rounds) r, em, omega (arith, tick_cost-pos (s.priority (this_task s))))
