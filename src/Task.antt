-- ===== src/Task.antt =====
-- Creation of processes, system calls and the switch of processes, kernel/sched/task.c, with the types of
-- kernel/include/task.h and kernel/include/ptrace.h.
--
-- A task is named by the address of its `list` member, a thread_struct and a pt_regs on a stack by their
-- own. `none` is a run that C leaves undefined, or one past the fuel of enqueue_task.
pub mod Fork
pub mod Switch
mod Tests
use Prim.Native.Nat.{bit_and}
use s_os.Memory.Init.{pg_kernel}
use s_os.Base.{
  ◌%◌, ℕ, zero, suc, ◌+◌, ◌-◌, ◌^◌, Bool, Option, none, some, List, [], ◌∷◌, ◌==◌, ltb,
  if◌then◌else◌, update,
}
use s_os.Base.Int.{pos}
use s_os.Base.Monad.{◌>>=◌}
use s_os.ListHeap.{Ptr, list_init}
use s_os.State.{Kernel, this_task}
use s_os.Memory.{Memory, Result, found, null, no_return, alloc_pages, zone_normal, pg_ptable_maped}
use s_os.Scheduler.{task_running, task_uninterruptible, enqueue_task}
use s_os.Slab.Kmalloc.{phy_to_virt}

-- `struct thread_struct`
pub record Thread : Type 0 where
  pub rsp0 : ℕ
  pub rip : ℕ
  pub rsp : ℕ
  pub fs : ℕ
  pub gs : ℕ
  pub cr2 : ℕ
  pub trap_nr : ℕ
  pub error_code : ℕ

-- `struct pt_regs`
pub record Regs : Type 0 where
  pub r15 : ℕ
  pub r14 : ℕ
  pub r13 : ℕ
  pub r12 : ℕ
  pub r11 : ℕ
  pub r10 : ℕ
  pub r9 : ℕ
  pub r8 : ℕ
  pub rbx : ℕ
  pub rcx : ℕ
  pub rdx : ℕ
  pub rsi : ℕ
  pub rdi : ℕ
  pub rbp : ℕ
  pub ds : ℕ
  pub es : ℕ
  pub rax : ℕ
  pub func : ℕ
  pub errcode : ℕ
  pub rip : ℕ
  pub cs : ℕ
  pub rflags : ℕ
  pub rsp : ℕ
  pub ss : ℕ

-- The fields of `struct task_struct` that Kernel does not have, the threads, the registers that are saved
-- on stacks, the physical pages, and the registers of the CPUs that a switch changes.
pub record Tasks (W : Type 0) : Type 0 where
  pub kernel : Kernel W
  pub memory : Memory
  pub preempt_count : Ptr → ℕ
  pub signal : Ptr → ℕ
  pub cpu_id : Ptr → ℕ
  pub mm : Ptr → Ptr
  pub thread : Ptr → Ptr
  pub addr_limit : Ptr → ℕ
  pub pid : Ptr → ℕ
  pub thread_struct : Ptr → Thread
  pub pt_regs : Ptr → Regs
  -- init_tss and the registers by the number of the CPU
  pub tss_rsp0 : ℕ → ℕ
  pub msr : ℕ → ℕ → ℕ
  pub fs : ℕ → ℕ
  pub gs : ℕ → ℕ

abbrev pub kernel_cs : ℕ
kernel_cs = 8

abbrev pub kernel_ds : ℕ
kernel_ds = 16

abbrev pub stack_size : ℕ
stack_size = 32768

abbrev pub pf_kthread : ℕ
pf_kthread = 1

-- the sizes of `struct task_struct` and `struct pt_regs`, and where a task has its `list`
abbrev pub task_size : ℕ
task_size = 104

abbrev pub regs_size : ℕ
regs_size = 192

abbrev pub list_offset : ℕ
list_offset = 56

abbrev pub copy_field {ℓ} : {A : Type ℓ} → (Ptr → A) → Ptr → Ptr → Ptr → A
copy_field field from to = update field to (field from)

module _ {W : Type 0} where
  -- `*tsk = *current`
  unfoldable pub copy_task : Tasks W → Ptr → Ptr → Tasks W
  copy_task s from to =
      let k = s.kernel in
      record s {
        kernel = record k {
          links = record {
            prev = copy_field k.links.prev from to;
            next = copy_field k.links.next from to;
          };
          state = copy_field k.state from to;
          flags = copy_field k.flags from to;
          priority = copy_field k.priority from to;
          vruntime = copy_field k.vruntime from to;
        };
        preempt_count = copy_field s.preempt_count from to;
        signal = copy_field s.signal from to;
        cpu_id = copy_field s.cpu_id from to;
        mm = copy_field s.mm from to;
        thread = copy_field s.thread from to;
        addr_limit = copy_field s.addr_limit from to;
        pid = copy_field s.pid from to;
      }

  -- do_fork, the part on the new task_struct
  unfoldable pub fork_task : Tasks W → Ptr → Tasks W
  fork_task s tsk =
      let s1 = copy_task s (this_task s.kernel) tsk in
      let k = s1.kernel in
      record s1 {
        kernel = record k {
          links = list_init k.links tsk;
          priority = update k.priority tsk (pos 2);
          state = update k.state tsk task_uninterruptible;
        };
        pid = update s1.pid tsk (s1.pid tsk + 1);
        preempt_count = update s1.preempt_count tsk 0;
        cpu_id = update s1.cpu_id tsk k.cpu;
      }

  -- do_fork, the part on the new thread_struct and stack. The `memset` has the size of a pointer, and
  -- clears one field only, which is set below. `base` is the address of the task_struct; `ret` is that of
  -- ret_system_call. Also the caller's registers, which are changed behind the copy.
  unfoldable pub fork_thread : ℕ → Tasks W → ℕ → Ptr → Regs → Regs × Tasks W
  fork_thread ret s base tsk regs =
      let thd = base + task_size in
      let frame = base + stack_size - regs_size in
      let user = bit_and (s.kernel.flags tsk) pf_kthread == 0 in
      (
        record regs { rip = if user then ret else regs.rip },
        record s {
          thread = update s.thread tsk thd;
          pt_regs = update s.pt_regs frame regs;
          thread_struct = update s.thread_struct thd (record (s.thread_struct thd) {
            rsp0 = base + stack_size;
            rip = if user then ret else regs.rip;
            rsp = frame;
            fs = kernel_ds;
            gs = kernel_ds;
          });
        },
      )

  -- do_fork behind the allocation of the page
  unfoldable pub fork_at : ℕ → ℕ → Tasks W → ℕ → Regs → Option (ℕ × Regs × Tasks W)
  fork_at ret f s base regs =
      let tsk = base + list_offset in
      let (regs1, s1) = fork_thread ret (fork_task s tsk) base tsk regs in
      do
        k ←
            enqueue_task f (record s1.kernel { state = update s1.kernel.state tsk task_running })
              tsk
        some (0, regs1, record s1 { kernel = k })

  -- `clone_flags`, `stack_start` and `stack_size` are not used. The page is used without a test for NULL.
  unfoldable pub do_fork : ℕ → ℕ → Tasks W → Regs → ℕ → ℕ → ℕ → Option (ℕ × Regs × Tasks W)
  do_fork ret f s regs _ _ _ =
      elim (alloc_pages s.memory zone_normal 1 (pg_ptable_maped + pg_kernel)) [
        | null ↦ none
        | no_return ↦ none
        | found page m ↦
            fork_at ret f (record s { memory = m }) (phy_to_virt (m.pages_struct page).phy_address)
              regs
      ]

-- the registers that kernel_thread builds; `entry` is the address of kernel_thread_func
unfoldable pub thread_regs : ℕ → ℕ → ℕ → Regs
thread_regs entry fn arg = record {
  r15 = 0;
  r14 = 0;
  r13 = 0;
  r12 = 0;
  r11 = 0;
  r10 = 0;
  r9 = 0;
  r8 = 0;
  rbx = fn;
  rcx = 0;
  rdx = arg;
  rsi = 0;
  rdi = 0;
  rbp = 0;
  ds = kernel_ds;
  es = kernel_ds;
  rax = 0;
  func = 0;
  errcode = 0;
  rip = entry;
  cs = kernel_cs;
  rflags = 2 ^ 9;
  rsp = 0;
  ss = kernel_ds;
}

unfoldable pub kernel_thread : {W : Type 0} → ℕ → ℕ → ℕ → Tasks W → ℕ → ℕ → ℕ → Option (ℕ × Tasks W)
kernel_thread ret entry f s fn arg flags = do
  (r, regs, t) ← do_fork ret f s (thread_regs entry fn arg) flags 0 0
  some (r, t)

-- the words of a pt_regs in memory, the lowest address first
abbrev pub stack_words : Regs → List ℕ
stack_words r =
    r.r15
    ∷ (r.r14
        ∷ (r.r13
            ∷ (r.r12
                ∷ (r.r11
                    ∷ (r.r10
                        ∷ (r.r9
                            ∷ (r.r8
                                ∷ (r.rbx
                                    ∷ (r.rcx
                                        ∷ (r.rdx
                                            ∷ (r.rsi
                                                ∷ (r.rdi
                                                    ∷ (r.rbp
                                                        ∷ (r.ds
                                                            ∷ (r.es
                                                            ∷ (r.rax
                                                            ∷ (r.func
                                                            ∷ (r.errcode
                                                            ∷ (r.rip
                                                            ∷ (r.cs
                                                            ∷ (r.rflags
                                                            ∷ (r.rsp
                                                            ∷ (r.ss ∷ [])))))))))))))))))))))))

-- kernel_thread_func: the registers are popped, and the function in rbx is called with rdx in rdi. The
-- answer is that function and its argument, or `none` for too short a stack.
unfoldable pub kernel_thread_func : List ℕ → Option (ℕ × ℕ)
kernel_thread_func
      (r15
        ∷ (r14
            ∷ (r13
                ∷ (r12
                    ∷ (r11
                        ∷ (r10
                            ∷ (r9
                                ∷ (r8
                                    ∷ (rbx
                                        ∷ (rcx
                                            ∷ (rdx
                                                ∷ (rsi
                                                    ∷ (rdi
                                                        ∷ (rbp
                                                            ∷ (ds
                                                            ∷ (es ∷ (rax ∷ rest))))))))))))))))) =
    some (rbx, rdx)
kernel_thread_func _ = none

abbrev pub max_system_call_nr : ℕ
max_system_call_nr = 128

-- no_system_call and sys_printf
abbrev pub no_system_call : Regs → ℕ
no_system_call regs = 2 ^ 64 - 1

abbrev pub sys_printf : Regs → ℕ
sys_printf regs = 1

-- The entries of system_call_table; `none` is an index behind the table.
unfoldable pub system_call_table : ℕ → Option (Regs → ℕ)
system_call_table nr =
    if ltb nr max_system_call_nr
    then some (if nr == 1 then sys_printf else no_system_call)
    else none

unfoldable pub system_call_function : Regs → Option ℕ
system_call_function regs = do handler ← system_call_table regs.rax; some (handler regs)

-- `__switch_to`, on the CPU that runs. The stack is that of `next` already, so that `current` and with it
-- SMP_cpu_id() are those of `next`. The segment registers have 16 bits.
unfoldable pub switch_registers : {W : Type 0} → Tasks W → Ptr → Ptr → Tasks W
switch_registers s prev next =
    let cpu = s.kernel.cpu in
    let rsp0 = (s.thread_struct (s.thread next)).rsp0 in
    let p = s.thread_struct (s.thread prev) in
    let saved =
      update s.thread_struct (s.thread prev) (record p { fs = s.fs cpu; gs = s.gs cpu }) in
    record s {
      tss_rsp0 = update s.tss_rsp0 (s.cpu_id next) rsp0;
      msr = update s.msr cpu (update (s.msr cpu) 0x175 rsp0);
      thread_struct = saved;
      fs = update s.fs cpu ((saved (s.thread next)).fs % 2 ^ 16);
      gs = update s.gs cpu ((saved (s.thread next)).gs % 2 ^ 16);
    }
