-- ===== src/Semaphore.antt =====
-- Semaphores, kernel/lock/semaphore.c, with the atomic operations of kernel/include/lock/atomic.h.
--
-- A semaphore is named by the address of the `list` member of its waiter head; a waiter, which lives on
-- the stack of the task that waits, by that of its own `list` member, the parameter `waiter`.
pub mod Wait
mod Tests
use s_os.Base.{ℕ, Bool, Option, none, some, if◌then◌else◌, update}
use s_os.Base.Int.{ℤ, pos, ◌+ℤ◌, ◌-ℤ◌, ltb_ℤ}
use s_os.ListHeap.{Ptr, list_init, list_add_to_before, list_del, list_is_empty, list_next}
use s_os.Scheduler.{task_running, task_uninterruptible, enqueue_task, schedule}
use s_os.State.{Kernel, this_task}

-- TASK_UNINTERRUPTIBLE of kernel/include/task.h
module _ {W : Type 0} where
  unfoldable pub atomic_set : Kernel W → Ptr → ℤ → Kernel W
  atomic_set s atomic val = record s { counter = update s.counter atomic val }

  unfoldable pub atomic_inc : Kernel W → Ptr → Kernel W
  atomic_inc s atomic = record s { counter = update s.counter atomic (s.counter atomic +ℤ pos 1) }

  unfoldable pub atomic_dec : Kernel W → Ptr → Kernel W
  atomic_dec s atomic = record s { counter = update s.counter atomic (s.counter atomic -ℤ pos 1) }

  unfoldable pub semaphore_waiter_init : Kernel W → Ptr → Ptr → Kernel W
  semaphore_waiter_init s waiter tsk = record s {
    links = list_init s.links waiter;
    tsk = update s.tsk waiter tsk;
  }

  unfoldable pub semaphore_init : Kernel W → Ptr → ℕ → Kernel W
  semaphore_init s semaphore count =
      semaphore_waiter_init (atomic_set s semaphore (pos count)) semaphore 0

  -- `__up`: the first waiter is taken off and its task is made runnable.
  unfoldable pub wake : ℕ → Kernel W → Ptr → Option (Kernel W)
  wake f s semaphore =
      let waiter = list_next s.links semaphore in
      let s1 = record s { links = list_del s.links waiter } in
      let s2 = record s1 { state = update s1.state (s1.tsk waiter) task_running } in
      enqueue_task f s2 (s2.tsk waiter)

  unfoldable pub semaphore_up : ℕ → Kernel W → Ptr → Option (Kernel W)
  semaphore_up f s semaphore =
      if list_is_empty s.links semaphore then some (atomic_inc s semaphore) else wake f s semaphore

  -- `__down` up to the call of schedule: the running task is blocked and joins the waiters.
  unfoldable pub join : Kernel W → Ptr → Ptr → Kernel W
  join s semaphore waiter =
      let s1 = semaphore_waiter_init s waiter (this_task s) in
      let s2 = record s1 { state = update s1.state (this_task s1) task_uninterruptible } in
      record s2 { links = list_add_to_before s2.links semaphore waiter }

  -- `__down`
  unfoldable pub wait_for : ℕ → Kernel W → Ptr → Ptr → Option (Kernel W)
  wait_for f s semaphore waiter = schedule f (join s semaphore waiter)

  unfoldable pub semaphore_down : ℕ → Kernel W → Ptr → Ptr → Option (Kernel W)
  semaphore_down f s semaphore waiter =
      if ltb_ℤ (pos 0) (s.counter semaphore)
      then some (atomic_dec s semaphore)
      else wait_for f s semaphore waiter
