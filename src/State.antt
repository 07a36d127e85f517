-- ===== src/State.antt =====
-- The part of the kernel's memory that the interrupt, timer, scheduler and semaphore code shares.
--
-- An object is identified by its address, for a task, a timer or a waiter that of its `list` member:
-- `container_of` only changes the offset. The fields of all objects of a type form one function.
pub mod Sample
use s_os.Base.{ℕ, Bool, ◌≡◌}
use s_os.Base.Int.{ℤ}
use s_os.ListHeap.{Ptr, Links}

-- `struct softirq` (kernel/include/softirq.h): the address of the handler, and its argument.
pub record SoftirqEntry : Type 0 where
  pub action : Ptr
  pub arg : ℕ

-- `W` is what the handlers that the kernel calls through pointers work on besides.
pub record Kernel (W : Type 0) : Type 0 where
  pub links : Links
  -- the interrupt flag
  pub interrupts : Bool
  -- kernel/include/softirq.h
  pub softirq_status : ℕ
  pub softirq_vector : ℕ → SoftirqEntry
  -- kernel/include/timer.h: `timerList`, `jiffies` and the fields of `struct timer`
  pub timer_list : Ptr
  pub jiffies : ℕ
  pub expire_jiffies : Ptr → ℕ
  pub func : Ptr → Ptr
  pub arg : Ptr → ℕ
  -- kernel/include/task.h: the fields of `struct task_struct`
  pub state : Ptr → ℕ
  pub flags : Ptr → ℕ
  pub priority : Ptr → ℤ
  -- `vruntime` starts at 0 and only grows, so it is kept as a natural number
  pub vruntime : Ptr → ℕ
  -- kernel/include/scheduler.h: `task_scheduler`, one for each CPU
  pub runqueue : ℕ → Ptr
  pub running_task_count : ℕ → ℤ
  pub cpu_exec_task_jiffies : ℕ → ℤ
  pub init_task : ℕ → Ptr
  -- `SMP_cpu_id()` and, for each CPU, `current`
  pub cpu : ℕ
  pub current : ℕ → Ptr
  -- kernel/include/lock/semaphore.h: `counter.value`, by the address of the semaphore's waiter head
  pub counter : Ptr → ℤ
  pub tsk : Ptr → Ptr
  pub world : W

-- `current`
abbrev pub this_task : {W : Type 0} → Kernel W → Ptr
this_task s = s.current s.cpu

-- A call through a function pointer, with its argument.
abbrev pub Call : Type 0 → Type 0
Call W = Ptr → ℕ → Kernel W → Kernel W

-- A hypothesis on the code behind function pointers: it works on the world outside the kernel's structures only, as
-- `act` says.
abbrev pub OnlyWorld : {W : Type 0} → Call W → (Ptr → ℕ → W → W) → Type 0
OnlyWorld {W} call act =
    (f : Ptr) (d : ℕ) (s : Kernel W) → call f d s ≡ record s { world = act f d s.world }
