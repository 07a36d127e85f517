-- ===== src/Scheduler/Branches.antt =====
-- The two branches of schedule, kernel/sched/scheduler.c, for the task that it has picked.
use s_os.Base.{
  ℕ, ◌≡◌, ◌≤◌, ◌<◌, ◌≢◌, refl, true, false, some, List, ◌∷◌, length, arith, leb, ◌==◌, ◌&&◌, ◌||◌,
  Bool, false, if◌then◌else◌, ◌∙◌, update, All, All-map, Bool-cases, inl, inr, ◌⊎◌, ap, subst,
}
use s_os.ListHeap.{Ptr}
use s_os.ListHeap.Chain.{has}
use s_os.State.{Kernel, this_task}
use s_os.Scheduler.{
  task_running, max_vruntime, queue, pick_next_task, enqueue_task, switch_to, switch_or_stay,
  schedule, clear_need_schedule,
}
use s_os.Scheduler.Queue.{IsQueue}
use s_os.Scheduler.Schedule.{
  All-enqueued, IsScheduled, Requeued, enqueue-enqueued, enqueued, has-enqueued, has-enqueued_apart,
  idle, idle_apart, in-enqueued, init_timeslice-total,
}
use s_os.Scheduler.Outcome.{Keeps-Requeued, Outcome, Outcome-Keeps}

module _ {W : Type 0} (s : Kernel W) (xs : List Ptr) (o : IsScheduled s xs) (f : ℕ)
    (fuel : length xs < f) (tsk : Ptr) (tsk_out : has tsk (queue s ∷ xs) ≡ false)
    (tsk_small : s.vruntime tsk ≤ max_vruntime)
    (tsk_least : All (λ x. s.vruntime tsk ≤ s.vruntime x) xs) where
  -- the first step of the first branch: the running task is put back if it can run
  put_back :
      (t : Kernel W) × (ys : List Ptr) × ((if s.state (this_task s) == task_running
          then enqueue_task f s (this_task s)
          else some s)
        ≡ some t)
      × IsQueue t ys
      × Requeued s t
      × ((ys ≡ xs) ⊎ (ys ≡ enqueued s (this_task s) xs))
      × ((p : Ptr)
          → ((p == idle s) || has p ys)
            ≡ ((p == idle s) || (has p xs || ((p == this_task s) && (s.state p == task_running)))))
  put_back = elim (Bool-cases (s.state (this_task s) == task_running)) [
    | inl e ↦
        let (t, r, q, c) =
          enqueue-enqueued s xs o.queued f (this_task s) o.running_small o.running_out fuel in
        rw e (
          t,
          enqueued s (this_task s) xs,
          r,
          q,
          c,
          inr refl,
          λ p. ground (arith, in-enqueued s xs o.queued (this_task s) p, can_run p true e),
        )
    | inr e ↦ rw e (s, xs, refl, o.queued, refl, inl refl, λ p. ground (arith, can_run p false e))
  ]
    where
      can_run :
          (p : Ptr) (b : Bool)
          → (s.state (this_task s) == task_running) ≡ b
          → (p == this_task s) ≡ true
          → (s.state p == task_running) ≡ b
      can_run p b e h =
          let same : this_task s ≡ p = ground arith in
          subst (λ k. (s.state k == task_running) ≡ b) same e

  has-queue :
      (ys : List Ptr)
      → (ys ≡ xs) ⊎ (ys ≡ enqueued s (this_task s) xs)
      → (r : Ptr) → (r ≢ this_task s) ⊎ (this_task s ≡ idle s)
      → has r xs ≡ false
      → has r ys ≡ false
  has-queue ys (inl e) r ap h = rw e h
  has-queue ys (inr e) r ap h = rw e (has-enqueued_apart s xs o.queued (this_task s) r ap h)

  All-queue :
      (ys : List Ptr)
      → (ys ≡ xs) ⊎ (ys ≡ enqueued s (this_task s) xs)
      → (P : Ptr → Type 0) → P (this_task s)
      → All P xs
      → All P ys
  All-queue ys (inl e) P h a = rw e a
  All-queue ys (inr e) P h a = rw e (All-enqueued s xs o.queued P (this_task s) h a)

  -- `tsk` is put back, and the running task goes on
  pub stay-Outcome :
      s.vruntime (this_task s) < s.vruntime tsk
      → (t : Kernel W) × (ys : List Ptr) × (switch_or_stay f s tsk ≡ some t)
        × Outcome s (tsk ∷ xs) t ys
        × (this_task t ≡ this_task s)
  unfolding switch_or_stay
  stay-Outcome lt =
      let ne : this_task s ≢ tsk = λ e. ground arith in
      let cur = this_task s in
      let (s1, e1, q1, c1) = enqueue-enqueued s xs o.queued f tsk tsk_small tsk_out fuel in
      let ys = enqueued s tsk xs in
      let (s2, e2, q2, c2) = init_timeslice-total s1 ys q1 cur in
      let k1 = Keeps-Requeued s s1 c1 in
      let k2 = Keeps-Requeued s1 s2 c2 in
      let test : leb (s.vruntime tsk) (s.vruntime cur) ≡ false = ground arith in
      (
        s2,
        ys,
        rw (test, e1) e2,
        Outcome-Keeps s s2 (tsk ∷ xs) ys cur q2 (ground arith) (ground arith) (ground arith)
            (ground arith) (k2.5 ∙ k1.5) (k2.6 ∙ k1.6)
            (ground (arith, has-enqueued s xs o.queued tsk cur))
            (ground
              (arith, has-enqueued_apart s xs o.queued tsk (idle s) (idle_apart s xs o.queued tsk)))
            o.running_small o.idle_small
            (All-enqueued s xs o.queued (λ x. s.vruntime x ≤ max_vruntime) tsk tsk_small o.small)
            (All-enqueued s xs o.queued (λ x. s.vruntime cur ≤ s.vruntime x) tsk (ground arith)
              (All-map (λ x. s.vruntime tsk ≤ s.vruntime x) (λ x. s.vruntime cur ≤ s.vruntime x) xs
                (λ x l. ground arith) tsk_least))
            (λ p. ground (arith, in-enqueued s xs o.queued tsk p)),
        ground arith,
      )

  -- the running task is put back if it can run, and `tsk` takes over
  pub switch-Outcome :
      s.vruntime tsk ≤ s.vruntime (this_task s)
      → (tsk ≢ this_task s) ⊎ (this_task s ≡ idle s)
      → (t : Kernel W) × (ys : List Ptr) × (switch_or_stay f s tsk ≡ some t)
        × Outcome s (tsk ∷ xs) t ys
        × (this_task t ≡ tsk)
  unfolding switch_or_stay switch_to
  switch-Outcome le apart =
      let cur = this_task s in
      let (s1, ys, e1, q1, c1, which, back) = put_back in
      let (s2, e2, q2, c2) = init_timeslice-total s1 ys q1 tsk in
      let k1 = Keeps-Requeued s s1 c1 in
      let k2 = Keeps-Requeued s1 s2 c2 in
      let test : leb (s.vruntime tsk) (s.vruntime cur) ≡ true = ground arith in
      let t = record s2 { current = update s2.current s2.cpu tsk } in
      let q3 : IsQueue t ys = record {
        ring = q2.ring;
        sorted = q2.sorted;
        sentinel = q2.sentinel;
        count = q2.count;
      } in
      (
        t,
        ys,
        rw (test, e1, e2),
        Outcome-Keeps s t (tsk ∷ xs) ys tsk q3 (ground arith) (ground arith) (ground arith)
            (ground arith) (k2.5 ∙ k1.5) (k2.6 ∙ k1.6)
            (ground (arith, has-queue ys which tsk apart))
            (ground (arith, has-queue ys which (idle s) (idle_apart s xs o.queued cur))) tsk_small
            o.idle_small
            (All-queue ys which (λ x. s.vruntime x ≤ max_vruntime) o.running_small o.small)
            (All-queue ys which (λ x. s.vruntime tsk ≤ s.vruntime x) le tsk_least)
            (λ p. ground (arith, back p)),
        ground arith,
      )

module _ {W : Type 0} (f : ℕ) (s : Kernel W) where
  pub schedule-pick :
      (tsk : Ptr) (t : Kernel W)
      → pick_next_task (clear_need_schedule s) ≡ (tsk, t)
      → schedule f s ≡ switch_or_stay f t tsk
  unfolding schedule
  schedule-pick tsk t e = rw (e, schedule)

  pub cleared-IsScheduled :
      (xs : List Ptr) → IsScheduled s xs → IsScheduled (clear_need_schedule s) xs
  unfolding clear_need_schedule
  cleared-IsScheduled xs o = record {
    queued = record {
      ring = o.queued.ring;
      sorted = o.queued.sorted;
      sentinel = o.queued.sentinel;
      count = o.queued.count;
    };
    running_out = o.running_out;
    idle_out = o.idle_out;
    running_small = o.running_small;
    idle_small = o.idle_small;
    small = o.small;
  }
