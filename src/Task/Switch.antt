-- ===== src/Task/Switch.antt =====
-- System calls and `__switch_to` of kernel/sched/task.c.
use s_os.Base.{
  ◌-◌, ◌%◌, ◌<◌, ◌^◌, ◌≡◌, ◌≢◌, refl, none, some, ◌==◌, ltb, if◌then◌else◌, arith, Bool-cases, inl,
  inr,
}
use s_os.ListHeap.{Ptr}
use s_os.Task.{
  Tasks, Regs, system_call_table, system_call_function, max_system_call_nr, switch_registers,
}

-- The first 128 numbers of system calls are answered, number 1 by 1 and the others by -1; a larger number
-- calls through a pointer behind the table.
pub system_call_function-answer :
    (regs : Regs)
    → system_call_function regs ≡ (
        if ltb regs.rax max_system_call_nr
        then some (if regs.rax == 1 then 1 else 2 ^ 64 - 1)
        else none)
unfolding system_call_function system_call_table
system_call_function-answer regs = elim (Bool-cases (ltb regs.rax max_system_call_nr)) [
  | inl h ↦ elim (Bool-cases (regs.rax == 1)) [
    | inl e ↦ rw (h, e, system_call_function) refl
    | inr e ↦ rw (h, e, system_call_function) refl
  ]
  | inr h ↦ rw (h, system_call_function) refl
]

-- A switch from a task to another and back, on the CPU that both belong to, leaves the segment registers as
-- they were, and saves the 16 bits that they had for the other task. In between the CPU's task state
-- segment and the entry of system calls have the stack of the other task, afterwards the first one's. The
-- two tasks have different threads, and the segment registers hold 16 bits.
pub switch_registers-back :
    {W : Type 0} (s : Tasks W) (a b : Ptr)
    → s.thread a ≢ s.thread b
    → s.cpu_id a ≡ s.kernel.cpu
    → s.cpu_id b ≡ s.kernel.cpu
    → s.fs s.kernel.cpu < 2 ^ 16
    → s.gs s.kernel.cpu < 2 ^ 16
    → let cpu = s.kernel.cpu in
      let there = switch_registers s a b in
      let back = switch_registers there b a in
      (there.tss_rsp0 cpu ≡ (s.thread_struct (s.thread b)).rsp0)
      × (there.msr cpu 0x175 ≡ there.tss_rsp0 cpu)
      × (back.tss_rsp0 cpu ≡ (s.thread_struct (s.thread a)).rsp0)
      × (back.msr cpu 0x175 ≡ back.tss_rsp0 cpu)
      × (back.fs cpu ≡ s.fs cpu)
      × (back.gs cpu ≡ s.gs cpu)
      × ((back.thread_struct (s.thread b)).fs ≡ (s.thread_struct (s.thread b)).fs % 2 ^ 16)
      × ((back.thread_struct (s.thread b)).gs ≡ (s.thread_struct (s.thread b)).gs % 2 ^ 16)
unfolding switch_registers
switch_registers-back s a b apart on_a on_b small_fs small_gs = ground arith
