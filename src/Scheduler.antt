-- ===== src/Scheduler.antt =====
-- The process scheduler, kernel/sched/scheduler.c.
--
-- `switch_to` is the change of `current`: it saves and loads the two tasks' registers and stacks.
pub mod Choice
pub mod Picked
pub mod Queue
pub mod Schedule
pub mod Outcome
pub mod Branches
pub mod Timeslice
pub mod Sample
mod Tests
use Prim.Native.Nat.{bit_and, bit_or}
use s_os.Base.{
  ℕ, zero, suc, ◌+◌, ◌-◌, ◌*◌, ◌/◌, ◌^◌, Bool, Option, none, some, leb, ltb, ◌==◌, if◌then◌else◌,
  update,
}
use s_os.Base.Int.{ℤ, pos, negsuc, ◌+ℤ◌, ◌-ℤ◌, leb_ℤ}
use s_os.ListHeap.{Ptr, Links, list_init, list_add_to_before, list_del, list_is_empty, list_next}
use s_os.ListHeap.Ordered.{place}
use s_os.State.{Kernel, this_task}

-- TASK_RUNNING, TASK_UNINTERRUPTIBLE and NEED_SCHEDULE of kernel/include/task.h, and the first vruntime of a queue's head
abbrev pub task_running : ℕ
task_running = 1

abbrev pub task_uninterruptible : ℕ
task_uninterruptible = 4

abbrev pub need_schedule : ℕ
need_schedule = 2

abbrev pub max_vruntime : ℕ
max_vruntime = 0x7fffffffffffffff

abbrev pub nr_cpus : ℕ
nr_cpus = 8

-- how much a tick costs a task of the priority: the `switch` of update_cur_runtime
unfoldable pub tick_cost : ℤ → ℕ
tick_cost (pos zero) = 1
tick_cost (pos (suc zero)) = 1
tick_cost p = 2

-- `4 / count` of two longs, rounded towards 0; `none` is the processor's divide error
unfoldable pub four_over : ℤ → Option ℤ
four_over (pos zero) = none
four_over (pos (suc n)) = some (pos (4 / suc n))
four_over (negsuc n) = some (pos 0 -ℤ pos (4 / suc n))

-- the time slice of a task of the priority: the `switch` of init_timeslice
unfoldable pub slice : ℤ → ℤ → ℤ
slice (pos zero) q = q
slice (pos (suc zero)) q = q
slice p q = q +ℤ q +ℤ q

module _ {W : Type 0} where
  unfoldable pub update_cur_runtime : Kernel W → Kernel W
  update_cur_runtime s =
      let cost = tick_cost (s.priority (this_task s)) in
      let left = s.cpu_exec_task_jiffies s.cpu -ℤ pos cost in
      record s {
        cpu_exec_task_jiffies = update s.cpu_exec_task_jiffies s.cpu left;
        vruntime = update s.vruntime (this_task s) (s.vruntime (this_task s) + cost);
        flags =
            if leb_ℤ left (pos 0)
            then update s.flags (this_task s) (bit_or (s.flags (this_task s)) need_schedule)
            else s.flags;
      }

  -- the queue of this CPU
  abbrev pub queue : Kernel W → Ptr
  queue s = s.runqueue s.cpu

  unfoldable pub pick_next_task : Kernel W → Ptr × Kernel W
  pick_next_task s =
      if list_is_empty s.links (queue s)
      then (s.init_task s.cpu, s)
      else let tsk = list_next s.links (queue s) in
        (
          tsk,
          record s {
            links = list_del s.links tsk;
            running_task_count =
                update s.running_task_count s.cpu (s.running_task_count s.cpu -ℤ pos 1);
          },
        )

  unfoldable pub enqueue_task : ℕ → Kernel W → Ptr → Option (Kernel W)
  enqueue_task f s tsk =
      if tsk == s.init_task s.cpu
      then some s
      else elim (place f s.links s.vruntime (s.vruntime tsk) (queue s)) [
        | none ↦ none
        | some tmp ↦ some (record s {
          links = list_add_to_before s.links tmp tsk;
          running_task_count =
              update s.running_task_count s.cpu (s.running_task_count s.cpu +ℤ pos 1);
        })
      ]

  -- a new time slice, where the queue's length is not 0
  unfoldable pub set_timeslice : Kernel W → Ptr → Option ℤ → Option (Kernel W)
  set_timeslice s tsk none = none
  set_timeslice s tsk (some q) = some (record s {
    cpu_exec_task_jiffies = update s.cpu_exec_task_jiffies s.cpu (slice (s.priority tsk) q);
  })

  -- init_timeslice, by the time that is left
  unfoldable pub renew_timeslice : Kernel W → Ptr → ℤ → Option (Kernel W)
  renew_timeslice s tsk (pos zero) = set_timeslice s tsk (four_over (s.running_task_count s.cpu))
  renew_timeslice s tsk _ = some s

  unfoldable pub init_timeslice : Kernel W → Ptr → Option (Kernel W)
  init_timeslice s tsk = renew_timeslice s tsk (s.cpu_exec_task_jiffies s.cpu)

  unfoldable pub switch_to : Kernel W → Ptr → Kernel W
  switch_to s next = record s { current = update s.current s.cpu next }

  infixl 5 ◌>>=◌
  abbrev pub ◌>>=◌ : Option (Kernel W) → (Kernel W → Option (Kernel W)) → Option (Kernel W)
  none >>= k = none
  some s >>= k = k s

  -- `current->flags &= ~NEED_SCHEDULE`, with `flags` of 64 bits
  unfoldable pub clear_need_schedule : Kernel W → Kernel W
  clear_need_schedule s = record s {
    flags =
        update s.flags (this_task s) (bit_and (s.flags (this_task s)) (2 ^ 64 - 1 - need_schedule));
  }

  -- what schedule does once the next task is picked
  unfoldable pub switch_or_stay : ℕ → Kernel W → Ptr → Option (Kernel W)
  switch_or_stay f s tsk =
      let cur = this_task s in
      if leb (s.vruntime tsk) (s.vruntime cur)
      then (do
        s1 ← (if s.state cur == task_running then enqueue_task f s cur else some s)
        s2 ← init_timeslice s1 tsk
        some (switch_to s2 tsk))
      else (do s1 ← enqueue_task f s tsk; init_timeslice s1 cur)

  unfoldable pub schedule : ℕ → Kernel W → Option (Kernel W)
  schedule f s = let (tsk, s1) = pick_next_task (clear_need_schedule s) in switch_or_stay f s1 tsk

  -- The loop of scheduler_init. The `memset` in front of it clears the other fields of the heads.
  unfoldable pub init_queues : ℕ → ℕ → Kernel W → Kernel W
  init_queues zero i s = s
  init_queues (suc n) i s = init_queues n (i + 1) (record s {
    links = list_init s.links (s.runqueue i);
    state = update s.state (s.runqueue i) 0;
    flags = update s.flags (s.runqueue i) 0;
    priority = update s.priority (s.runqueue i) (pos 0);
    vruntime = update s.vruntime (s.runqueue i) max_vruntime;
    running_task_count = update s.running_task_count i (pos 1);
    cpu_exec_task_jiffies = update s.cpu_exec_task_jiffies i (pos 4);
  })

  unfoldable pub scheduler_init : Kernel W → Kernel W
  scheduler_init s = init_queues nr_cpus 0 s
