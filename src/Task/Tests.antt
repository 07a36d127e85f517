-- ===== src/Task/Tests.antt =====
-- A new task in page 3 of the sample machine, on the sample run queue.
use s_os.Base.{ℕ, ◌+◌, ◌≡◌, refl, some, [], ◌∷◌, arith}
use s_os.State.{Kernel}
use s_os.State.Sample.{state}
use s_os.ListHeap.Ordered.{insert_by}
use s_os.Memory.{
  Memory, found, alloc_pages, try_zones, find_pages, find_bit, window, take_pages, take_page,
}
use s_os.Memory.Sample.{machine}
use s_os.Scheduler.Queue.{IsQueue}
use s_os.Scheduler.Sample.{state-IsQueue}
use s_os.Slab.Kmalloc.{phy_to_virt}
use s_os.Task.{
  Tasks, Regs, Thread, thread_regs, do_fork, kernel_thread, stack_words, kernel_thread_func,
  switch_registers, list_offset,
}
use s_os.Task.Fork.{Forked, do_fork-Forked, kernel_thread-starts}
use s_os.Task.Switch.{switch_registers-back}

abbrev kernel : Kernel ℕ
kernel = record state { flags = λ p. 1 }

kernel-IsQueue : IsQueue kernel (11 ∷ (12 ∷ []))
kernel-IsQueue = record {
  ring = state-IsQueue.ring;
  sorted = state-IsQueue.sorted;
  sentinel = refl;
  count = refl;
}

abbrev tasks : Tasks ℕ
tasks = record {
  kernel = kernel;
  memory = machine;
  preempt_count = λ p. 0;
  signal = λ p. 0;
  cpu_id = λ p. 0;
  mm = λ p. 0;
  thread = λ p. p + 48;
  addr_limit = λ p. 0;
  pid = λ p. 1;
  thread_struct = λ p. record {
    rsp0 = p + 500;
    rip = 0;
    rsp = p + 400;
    fs = p;
    gs = p + 1;
    cr2 = 0;
    trap_nr = 0;
    error_code = 0;
  };
  pt_regs = λ p. thread_regs 0 0 0;
  tss_rsp0 = λ cpu. 0;
  msr = λ cpu r. 0;
  fs = λ cpu. 16;
  gs = λ cpu. 16;
}

abbrev after : Memory
after = take_pages 1 machine 0 1 3

-- the address of page 3
abbrev base : ℕ
base = 0xffff800000600000

alloc_one : alloc_pages machine 2 1 9 ≡ found 3 after
unfolding alloc_pages try_zones find_pages find_bit window
alloc_one = refl

placed : phy_to_virt (after.pages_struct 3).phy_address ≡ base
unfolding take_pages take_page
placed = refl

do_fork-Forked_example :
    (t : Tasks ℕ) × (regs1 : Regs) × (do_fork 700 3 tasks (thread_regs 800 1 2) 7 0 0
      ≡ some (0, regs1, t))
    × IsQueue t.kernel (insert_by t.kernel.vruntime (base + list_offset) (11 ∷ (12 ∷ [])))
    × Forked 700 tasks t (base + list_offset) (thread_regs 800 1 2)
do_fork-Forked_example =
    do_fork-Forked 700 3 tasks (thread_regs 800 1 2) 7 0 0 3 base after (11 ∷ (12 ∷ [])) alloc_one
      placed kernel-IsQueue (ground arith) (ground arith) (omega arith) (omega arith)

kernel_thread-starts_example :
    (t : Tasks ℕ) × (thread : Thread) × (kernel_thread 700 800 3 tasks 123 10 7 ≡ some (0, t))
    × IsQueue t.kernel (insert_by t.kernel.vruntime (base + list_offset) (11 ∷ (12 ∷ [])))
    × (t.thread_struct (t.thread (base + list_offset)) ≡ thread)
    × (thread.rip ≡ 800)
    × (kernel_thread_func (stack_words (t.pt_regs thread.rsp)) ≡ some (123, 10))
kernel_thread-starts_example =
    kernel_thread-starts 700 800 3 tasks 123 10 7 3 base after (11 ∷ (12 ∷ [])) alloc_one placed
      kernel-IsQueue (ground arith) (ground arith) (omega arith) (omega arith) (ground arith)

switch_registers-back_example :
    let there = switch_registers tasks 13 11 in
    let back = switch_registers there 11 13 in
    (there.tss_rsp0 0 ≡ 559)
    × (there.msr 0 0x175 ≡ there.tss_rsp0 0)
    × (back.tss_rsp0 0 ≡ 561)
    × (back.msr 0 0x175 ≡ back.tss_rsp0 0)
    × (back.fs 0 ≡ 16)
    × (back.gs 0 ≡ 16)
    × ((back.thread_struct 59).fs ≡ 59)
    × ((back.thread_struct 59).gs ≡ 60)
switch_registers-back_example =
    switch_registers-back tasks 13 11 (ground arith) refl refl (omega arith) (omega arith)
