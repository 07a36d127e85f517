-- ===== src/Scheduler/Picked.antt =====
-- The state in which schedule of kernel/sched/scheduler.c chooses a task.
use s_os.Base.{◌≡◌, ◌≤◌, refl, false, List, [], ◌∷◌, arith, All, ap, subst, sym}
use s_os.ListHeap.{Ptr}
use s_os.ListHeap.Chain.{has}
use s_os.State.{Kernel, this_task}
use s_os.Scheduler.{max_vruntime, queue, pick_next_task}
use s_os.Scheduler.Queue.{pick_next_task-idle, pick_next_task-first}
use s_os.Scheduler.Schedule.{IsScheduled, Requeued, idle}

-- the task that pick_next_task answers for the queue
abbrev pub picked : {W : Type 0} → Kernel W → List Ptr → Ptr
picked s [] = idle s
picked s (x ∷ xs) = x

unfoldable pub picked_rest : List Ptr → List Ptr
picked_rest [] = []
picked_rest (x ∷ xs) = xs

-- The state in which schedule chooses.
pub picked-IsScheduled :
    {W : Type 0} (s : Kernel W) (xs : List Ptr)
    → IsScheduled s xs
    → (t : Kernel W) × (pick_next_task s ≡ (picked s xs, t))
      × IsScheduled t (picked_rest xs)
      × Requeued s t
      × (has (picked s xs) (queue t ∷ picked_rest xs) ≡ false)
      × (t.vruntime (picked s xs) ≤ max_vruntime)
      × All (λ x. t.vruntime (picked s xs) ≤ t.vruntime x) (picked_rest xs)
unfolding picked_rest
picked-IsScheduled s [] o =
    (s, pick_next_task-idle s [] o.queued refl, o, refl, o.idle_out, o.idle_small, tt)
picked-IsScheduled s (x ∷ xs) o =
    let (t, e, q, c) = pick_next_task-first s x xs o.queued in
    let ev : t.vruntime ≡ s.vruntime = ap (λ k. k.vruntime) c in
    let eq : queue t ≡ queue s = ap (λ k. queue k) c in
    let ei : idle t ≡ idle s = ap (λ k. idle k) c in
    let er : this_task t ≡ this_task s = ap (λ k. this_task k) c in
    (
      t,
      e,
      record {
        queued = q;
        running_out = ground (arith, o.running_out);
        idle_out = ground (arith, o.idle_out);
        running_small = ground (arith, o.running_small);
        idle_small = ground (arith, o.idle_small);
        small = subst (λ v. All (λ y. v y ≤ max_vruntime) xs) (sym ev) o.small.1;
      },
      ground arith,
      ground (arith, o.queued.ring.distinct),
      ground (arith, o.small),
      subst (λ v. All (λ y. v x ≤ v y) xs) (sym ev) o.queued.sorted.0,
    )
