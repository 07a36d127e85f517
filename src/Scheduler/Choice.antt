-- ===== src/Scheduler/Choice.antt =====
-- The result of schedule of kernel/sched/scheduler.c, on both branches.
use s_os.Base.{
  ℕ, ◌≡◌, ◌≤◌, ◌<◌, refl, ◌∙◌, some, List, [], ◌∷◌, length, arith, leb, if◌then◌else◌, Bool-cases,
  inl, inr, ap, ◌⊎◌, ◌≢◌, ◌==◌, ◌||◌,
}
use s_os.ListHeap.{Ptr}
use s_os.ListHeap.Chain.{has}
use s_os.State.{Kernel, this_task}
use s_os.Scheduler.{schedule, clear_need_schedule}
use s_os.Scheduler.Schedule.{IsScheduled, idle}
use s_os.Scheduler.Outcome.{Outcome, Keeps-Requeued}
use s_os.Scheduler.Branches.{cleared-IsScheduled, schedule-pick, switch-Outcome, stay-Outcome}
use s_os.Scheduler.Picked.{picked, picked_rest, picked-IsScheduled}

length-picked_rest : (xs : List Ptr) → length (picked_rest xs) ≤ length xs
unfolding picked_rest
length-picked_rest [] = omega arith
length-picked_rest (x ∷ xs) = omega arith

-- The outcome of the state in which schedule chooses is one of the state before, which it agrees with.
Outcome-from :
    {W : Type 0} (s s' t : Kernel W) (xs xs' ys : List Ptr)
    → s'.vruntime ≡ s.vruntime
    → s'.state ≡ s.state
    → s'.counter ≡ s.counter
    → idle s' ≡ idle s
    → this_task s' ≡ this_task s
    → ((p : Ptr) → ((p == idle s) || has p xs') ≡ ((p == idle s) || has p xs))
    → Outcome s' xs' t ys
    → Outcome s xs t ys
Outcome-from s s' t xs xs' ys ev es ek ei er same o = record {
  scheduled = o.scheduled;
  least = o.least;
  same_vruntime = o.same_vruntime ∙ ev;
  same_state = o.same_state ∙ es;
  same_counter = o.same_counter ∙ ek;
  kept = λ p.
      let at : s'.state p ≡ s.state p = ap (λ (g : Ptr → ℕ). g p) es in
      ground (arith, o.kept p, same p);
}

-- The picked task and the rest are the queue, up to the idle task.
picked-same :
    {W : Type 0} (s : Kernel W) (xs : List Ptr) (tsk p : Ptr)
    → tsk ≡ picked s xs
    → ((p == idle s) || has p (tsk ∷ picked_rest xs)) ≡ ((p == idle s) || has p xs)
unfolding picked_rest
picked-same s [] tsk p e = ground arith
picked-same s (x ∷ xs) tsk p e = ground arith

picked_apart :
    {W : Type 0} (s : Kernel W) (xs : List Ptr)
    → IsScheduled s xs
    → (picked s xs ≢ this_task s) ⊎ (this_task s ≡ idle s)
picked_apart s [] o = ground arith
picked_apart s (x ∷ xs) o = inl (λ e. ground (arith, o.running_out))

module _ {W : Type 0} (s : Kernel W) (xs : List Ptr) (o : IsScheduled s xs) (f : ℕ)
    (fuel : length xs < f) where
  -- With fuel for the nodes of the queue schedule returns: it divides by no zero. It gives the
  -- processor to the first task of the queue (to the idle task if the queue is empty), if that has run no
  -- longer than the running task, and lets the running task go on otherwise. Afterwards the queue is
  -- sorted and counted, holds neither the running nor the idle task, and no queued task has run less
  -- than the running one; no vruntime, task state or semaphore counter has changed. No task is lost: those
  -- that run or are queued are the same as before, up to the idle task, but for a running task that cannot
  -- run any more, which is dropped unless it goes on.
  pub schedule-Outcome :
      (t : Kernel W) × (ys : List Ptr) × (schedule f s ≡ some t)
      × Outcome s xs t ys
      × (this_task t ≡ (
          if leb (s.vruntime (picked s xs)) (s.vruntime (this_task s))
          then picked s xs
          else this_task s))
  unfolding clear_need_schedule
  schedule-Outcome =
      let s0 = clear_need_schedule s in
      let o0 = cleared-IsScheduled f s xs o in
      let (s1, e1, o1, c1, out, small, least) = picked-IsScheduled s0 xs o0 in
      let k1 = Keeps-Requeued s0 s1 c1 in
      let tsk = picked s0 xs in
      let same : picked s0 xs ≡ picked s xs = picked_same xs in
      let enough : length (picked_rest xs) < f = omega (arith, length-picked_rest xs) in
      let ev : s1.vruntime ≡ s.vruntime = k1.0 in
      let er : this_task s1 ≡ this_task s = ap (λ k. this_task k) c1 in
      let ei : idle s1 ≡ idle s = ap (λ k. idle k) c1 in
      let ap1 = picked_apart s xs o in
      elim (Bool-cases (leb (s.vruntime (picked s xs)) (s.vruntime (this_task s)))) [
        | inl h ↦
            let (t, ys, e, oc, r) =
              switch-Outcome s1 (picked_rest xs) o1 f enough tsk out small least (ground arith)
                (ground arith) in
            (
              t,
              ys,
              schedule-pick f s tsk s1 e1 ∙ e,
              Outcome-from s s1 t xs (tsk ∷ picked_rest xs) ys ev k1.5 k1.6 ei er
                  (λ p. picked-same s xs tsk p same) oc,
              rw h (r ∙ same),
            )
        | inr h ↦
            let (t, ys, e, oc, r) =
              stay-Outcome s1 (picked_rest xs) o1 f enough tsk out small least (ground arith) in
            (
              t,
              ys,
              schedule-pick f s tsk s1 e1 ∙ e,
              Outcome-from s s1 t xs (tsk ∷ picked_rest xs) ys ev k1.5 k1.6 ei er
                  (λ p. picked-same s xs tsk p same) oc,
              rw h (r ∙ er),
            )
      ]
    where
      picked_same : (xs : List Ptr) → picked (clear_need_schedule s) xs ≡ picked s xs
      picked_same [] = refl
      picked_same (x ∷ xs) = refl
