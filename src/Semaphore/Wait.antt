-- ===== src/Semaphore/Wait.antt =====
-- Who waits for a semaphore of kernel/lock/semaphore.c, and who goes on.
use s_os.Base.{
  ℕ, ◌≡◌, ◌≤◌, ◌<◌, ◌≢◌, refl, false, some, List, [], ◌∷◌, ◌++◌, length, arith, leb, if◌then◌else◌,
  ◌∙◌, ap, update, Bool-cases, inl, inr,
}
use s_os.Base.Int.{pos, ◌+ℤ◌, ◌-ℤ◌, ◌≤ℤ◌, ◌<ℤ◌}
use s_os.ListHeap.{Ptr, list_del, list_init}
use s_os.ListHeap.Apart.{Disjoint, prev-in, init-apart, before-apart, del-apart}
use s_os.ListHeap.Chain.{has}
use s_os.ListHeap.Ordered.{insert_by}
use s_os.ListHeap.Ring.{
  IsRing, list_is_empty-eq, list_next_lem, del-IsRing, first_in, before_head-IsRing,
}
use s_os.Scheduler.{task_running, max_vruntime, queue}
use s_os.Scheduler.Choice.{schedule-Outcome}
use s_os.Scheduler.Queue.{IsQueue, enqueue_task-IsQueue}
use s_os.Scheduler.Schedule.{IsScheduled}
use s_os.Scheduler.Picked.{picked}
use s_os.Semaphore.{
  semaphore_up, semaphore_down, wake, join, wait_for, atomic_inc, atomic_dec, semaphore_waiter_init,
  task_uninterruptible,
}
use s_os.State.{Kernel, this_task}

module _ {W : Type 0} (s : Kernel W) (sem waiter : Ptr) (ws : List Ptr) where
  -- The running task joins the waiters at their end and is blocked; the rest of the memory is as before.
  join-IsRing :
      IsRing s.links sem ws
      → has waiter (sem ∷ ws) ≡ false
      → IsRing (join s sem waiter).links sem (ws ++ (waiter ∷ []))
  unfolding join semaphore_waiter_init
  join-IsRing r out =
      before_head-IsRing (list_init s.links waiter) sem waiter ws
        (init-apart s.links sem ws r waiter out) out

  join-IsScheduled :
      (xs : List Ptr)
      → IsScheduled s xs
      → IsRing s.links sem ws
      → has waiter (sem ∷ ws) ≡ false
      → has waiter (queue s ∷ xs) ≡ false
      → Disjoint (sem ∷ ws) (queue s ∷ xs)
      → IsScheduled (join s sem waiter) xs
  unfolding join semaphore_waiter_init
  join-IsScheduled xs o r out qout apart =
      let h1 = list_init s.links waiter in
      let r1 = init-apart s.links sem ws r waiter out in
      let q1 = init-apart s.links (queue s) xs o.queued.ring waiter qout in
      record {
        queued = record {
          ring =
              before-apart h1 (queue s) xs q1 sem waiter (apart sem (ground arith)) qout
                (apart (h1.prev sem) (prev-in h1 sem ws r1));
          sorted = o.queued.sorted;
          sentinel = o.queued.sentinel;
          count = o.queued.count;
        };
        running_out = o.running_out;
        idle_out = o.idle_out;
        running_small = o.running_small;
        idle_small = o.idle_small;
        small = o.small;
      }

join-keeps :
    {W : Type 0} (s : Kernel W) (sem waiter : Ptr)
    → ((join s sem waiter).state (this_task s) ≡ task_uninterruptible)
      × ((join s sem waiter).counter ≡ s.counter)
unfolding join semaphore_waiter_init
join-keeps s sem waiter = (ground arith, refl)

join-choice :
    {W : Type 0} (s : Kernel W) (sem waiter : Ptr) (xs : List Ptr)
    → (let j = join s sem waiter in
        if leb (j.vruntime (picked j xs)) (j.vruntime (this_task j))
        then picked j xs
        else this_task j)
      ≡ (if leb (s.vruntime (picked s xs)) (s.vruntime (this_task s))
          then picked s xs
          else this_task s)
unfolding join semaphore_waiter_init
join-choice s sem waiter [] = refl
join-choice s sem waiter (x ∷ xs) = refl

module _ {W : Type 0} (f : ℕ) (s : Kernel W) (sem : Ptr) where
  -- A release with no waiter adds one to the counter and changes nothing else.
  semaphore_up-free :
      IsRing s.links sem []
      → semaphore_up f s sem
        ≡ some (record s { counter = update s.counter sem (s.counter sem +ℤ pos 1) })
  unfolding semaphore_up atomic_inc
  semaphore_up-free r = rw ((list_is_empty-eq s.links sem [] r).0 refl)

  -- A release with waiters leaves the counter and wakes the one that has waited longest: it is taken off
  -- the waiters, its task can run and is in its place in the run queue of this CPU. The hypotheses: fuel
  -- for the run queue, the two lists share no node, and the task is neither idle nor queued.
  pub semaphore_up-wakes :
      (w : Ptr) (ws xs : List Ptr)
      → IsRing s.links sem (w ∷ ws)
      → IsQueue s xs
      → Disjoint (sem ∷ (w ∷ ws)) (queue s ∷ xs)
      → has (s.tsk w) (queue s ∷ xs) ≡ false
      → has (s.tsk w) (sem ∷ ws) ≡ false
      → s.tsk w ≢ s.init_task s.cpu
      → s.vruntime (s.tsk w) ≤ max_vruntime
      → length xs < f
      → (t : Kernel W) × (semaphore_up f s sem ≡ some t)
        × IsQueue t (insert_by s.vruntime (s.tsk w) xs)
        × (t.state (s.tsk w) ≡ task_running)
        × (t.counter ≡ s.counter)
        × IsRing t.links sem ws
  unfolding semaphore_up wake
  semaphore_up-wakes w ws xs r q apart qout wout busy small fuel =
      let head_next = list_next_lem s.links sem in
      let s2 = record s {
        links = list_del s.links w;
        state = update s.state (s.tsk w) task_running;
      } in
      let q2 : IsQueue s2 xs = record {
        ring =
            del-apart s.links (queue s) xs q.ring w
              (apart (s.links.next w) (ground (arith, first_in s.links w ws sem r.chain.2)))
              (apart (s.links.prev w) (ground arith)) (apart w (ground arith));
        sorted = q.sorted;
        sentinel = q.sentinel;
        count = q.count;
      } in
      let (t, e, qt, c, other) = enqueue_task-IsQueue s2 xs q2 f (s.tsk w) busy small qout fuel in
      (
        t,
        rw ((list_is_empty-eq s.links sem (w ∷ ws) r).1 cc, head_next, r.chain.0) e,
        qt,
        ground (arith, ap (λ k. k.state (s.tsk w)) c),
        ap (λ k. k.counter) c,
        other sem ws (del-IsRing s.links sem w [] ws r) wout (λ p m.
            elim (Bool-cases (has p (sem ∷ ws))) [
              | inl i ↦ absurd (ground (arith, apart p))
              | inr o ↦ o
            ]),
      )

  -- An acquisition while the counter is positive takes one from it and changes nothing else.
  pub semaphore_down-takes :
      (waiter : Ptr)
      → pos 0 <ℤ s.counter sem
      → semaphore_down f s sem waiter
        ≡ some (record s { counter = update s.counter sem (s.counter sem -ℤ pos 1) })
  unfolding semaphore_down atomic_dec
  semaphore_down-takes waiter h = ground arith

  -- An acquisition while it is not positive blocks the running task, leaves the counter and calls
  -- schedule. That goes on with the first task of the queue (or the idle task) if it has run no longer
  -- than the caller; otherwise the caller itself goes on, though it holds no resource and is blocked. The
  -- hypotheses: fuel for the run queue, and the waiter is new and shares no node with the two lists.
  pub semaphore_down-waits :
      (waiter : Ptr) (ws xs : List Ptr)
      → s.counter sem ≤ℤ pos 0
      → IsRing s.links sem ws
      → IsScheduled s xs
      → has waiter (sem ∷ ws) ≡ false
      → has waiter (queue s ∷ xs) ≡ false
      → Disjoint (sem ∷ ws) (queue s ∷ xs)
      → length xs < f
      → (t : Kernel W) × (ys : List Ptr) × (semaphore_down f s sem waiter ≡ some t)
        × IsScheduled t ys
        × (t.state (this_task s) ≡ task_uninterruptible)
        × (t.counter ≡ s.counter)
        × (this_task t ≡ (
            if leb (s.vruntime (picked s xs)) (s.vruntime (this_task s))
            then picked s xs
            else this_task s))
  unfolding semaphore_down wait_for
  semaphore_down-waits waiter ws xs h r o out qout apart fuel =
      let s1 = join s sem waiter in
      let o1 = join-IsScheduled s sem waiter ws xs o r out qout apart in
      let (t, ys, e, oc, which) = schedule-Outcome s1 xs o1 f fuel in
      let kept = join-keeps s sem waiter in
      (
        t,
        ys,
        ground (arith, e),
        oc.scheduled,
        ground (arith, ap (λ (g : Ptr → ℕ). g (this_task s)) oc.same_state),
        oc.same_counter ∙ kept.1,
        which ∙ join-choice s sem waiter xs,
      )
