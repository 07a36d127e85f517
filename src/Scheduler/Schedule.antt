-- ===== src/Scheduler/Schedule.antt =====
-- schedule of kernel/sched/scheduler.c: which task runs next.
use s_os.Base.{
  ℕ, suc, ◌/◌, zero, ◌≡◌, ◌≤◌, ◌<◌, ◌≢◌, refl, false, some, List, ◌∷◌, length, arith, ◌==◌, ◌||◌,
  false, if◌then◌else◌, update, All, Bool-cases, inl, inr, ◌⊎◌, subst, sym,
}
use s_os.Base.Int.{ℤ, pos}
use s_os.ListHeap.{Ptr}
use s_os.ListHeap.Chain.{has}
use s_os.ListHeap.Ordered.{insert_by, All-insert_by, has-insert_by}
use s_os.State.{Kernel, this_task}
use s_os.Scheduler.{
  max_vruntime, queue, enqueue_task, init_timeslice, four_over, slice, renew_timeslice,
  set_timeslice,
}
use s_os.Scheduler.Queue.{IsQueue, enqueue_task-idle, enqueue_task-IsQueue}

-- the idle task of this CPU
abbrev pub idle : {W : Type 0} → Kernel W → Ptr
idle s = s.init_task s.cpu

-- The queue is in order, and neither the running task nor the idle task is in it.
pub record IsScheduled {W : Type 0} (s : Kernel W) (xs : List Ptr) : Type 0 where
  pub queued : IsQueue s xs
  pub running_out : has (this_task s) (queue s ∷ xs) ≡ false
  pub idle_out : has (idle s) (queue s ∷ xs) ≡ false
  pub running_small : s.vruntime (this_task s) ≤ max_vruntime
  pub idle_small : s.vruntime (idle s) ≤ max_vruntime
  pub small : All (λ x. s.vruntime x ≤ max_vruntime) xs

-- `t` is `s` but for the links, the counters and the time slices.
abbrev pub Requeued : {W : Type 0} → Kernel W → Kernel W → Type 0
Requeued s t = t ≡ record s {
  links = t.links;
  running_task_count = t.running_task_count;
  cpu_exec_task_jiffies = t.cpu_exec_task_jiffies;
}

-- the queue that enqueue_task leaves
abbrev pub enqueued : {W : Type 0} → Kernel W → Ptr → List Ptr → List Ptr
enqueued s p xs = if p == idle s then xs else insert_by s.vruntime p xs

module _ {W : Type 0} (s : Kernel W) (xs : List Ptr) (q : IsQueue s xs) where
  pub enqueue-enqueued :
      (f : ℕ) (p : Ptr)
      → s.vruntime p ≤ max_vruntime
      → has p (queue s ∷ xs) ≡ false
      → length xs < f
      → (t : Kernel W) × (enqueue_task f s p ≡ some t) × IsQueue t (enqueued s p xs) × Requeued s t
  enqueue-enqueued f p small new fuel = elim (Bool-cases (p == idle s)) [
    | inl e ↦
        let same : p ≡ idle s = ground arith in
        rw e (
          s,
          subst (λ k. enqueue_task f s k ≡ some s) (sym same) (enqueue_task-idle s xs q f),
          q,
          refl,
        )
    | inr e ↦
        let (t, r, q1, c, other) = enqueue_task-IsQueue s xs q f p (ground arith) small new fuel in
        rw e (t, r, q1, ground arith)
  ]

  renew-total :
      (tsk : Ptr) (left : ℤ)
      → (t : Kernel W) × (renew_timeslice s tsk left ≡ some t) × IsQueue t xs × Requeued s t
  unfolding renew_timeslice set_timeslice four_over
  renew-total tsk (pos zero) =
      let n = suc (length xs) in
      (
        record s {
          cpu_exec_task_jiffies =
              update s.cpu_exec_task_jiffies s.cpu (slice (s.priority tsk) (pos (4 / n)));
        },
        rw (q.count, set_timeslice),
        record { ring = q.ring; sorted = q.sorted; sentinel = q.sentinel; count = q.count },
        refl,
      )
  renew-total tsk (pos (suc n)) = (s, refl, q, refl)
  renew-total tsk _ = (s, refl, q, refl)

  -- The counter counts the idle task too, so the division never faults.
  pub init_timeslice-total :
      (tsk : Ptr) → (t : Kernel W) × (init_timeslice s tsk ≡ some t) × IsQueue t xs × Requeued s t
  unfolding init_timeslice
  init_timeslice-total tsk = renew-total tsk (s.cpu_exec_task_jiffies s.cpu)

  pub All-enqueued : (P : Ptr → Type 0) (p : Ptr) → P p → All P xs → All P (enqueued s p xs)
  All-enqueued P p h a = elim (Bool-cases (p == idle s)) [
    | inl e ↦ rw e a
    | inr e ↦ rw e (All-insert_by P s.vruntime p xs h a)
  ]

  pub has-enqueued : (p r : Ptr) → r ≢ p → has r xs ≡ false → has r (enqueued s p xs) ≡ false
  has-enqueued p r ne h = elim (Bool-cases (p == idle s)) [
    | inl e ↦ rw e h
    | inr e ↦ rw e (ground (arith, has-insert_by s.vruntime p r xs))
  ]

  -- up to the idle task, the one task is added
  pub in-enqueued :
      (k p : Ptr)
      → ((p == idle s) || has p (enqueued s k xs)) ≡ ((p == idle s) || ((p == k) || has p xs))
  in-enqueued k p = elim (Bool-cases (k == idle s)) [
    | inl e ↦ rw e (ground arith)
    | inr e ↦ rw e (ground (arith, has-insert_by s.vruntime k p xs))
  ]

  -- what is not in the queue is not put there with another task, or with the idle one
  pub has-enqueued_apart :
      (p r : Ptr) → (r ≢ p) ⊎ (p ≡ idle s) → has r xs ≡ false → has r (enqueued s p xs) ≡ false
  has-enqueued_apart p r (inl ne) h = has-enqueued p r ne h
  has-enqueued_apart p r (inr e) h = ground arith

  pub idle_apart : (p : Ptr) → (idle s ≢ p) ⊎ (p ≡ idle s)
  idle_apart p = ground arith
