-- ===== src/Scheduler/Outcome.antt =====
-- What schedule of kernel/sched/scheduler.c leaves.
use s_os.Base.{◌≡◌, ◌≤◌, false, List, ◌∷◌, arith, ◌==◌, ◌&&◌, ◌||◌, false, All, ap, subst, sym}
use s_os.ListHeap.{Ptr}
use s_os.ListHeap.Chain.{has}
use s_os.State.{Kernel, this_task}
use s_os.Scheduler.{task_running, max_vruntime, queue}
use s_os.Scheduler.Queue.{IsQueue}
use s_os.Scheduler.Schedule.{IsScheduled, Requeued, idle}

-- the fields that neither enqueue_task nor init_timeslice changes
abbrev pub Keeps : {W : Type 0} → Kernel W → Kernel W → Type 0
Keeps s t =
    (t.vruntime ≡ s.vruntime)
    × (t.runqueue ≡ s.runqueue)
    × (t.init_task ≡ s.init_task)
    × (t.cpu ≡ s.cpu)
    × (t.current ≡ s.current)
    × (t.state ≡ s.state)
    × (t.counter ≡ s.counter)

pub Keeps-Requeued : {W : Type 0} (s t : Kernel W) → Requeued s t → Keeps s t
Keeps-Requeued s t c = (
  ap (λ k. k.vruntime) c,
  ap (λ k. k.runqueue) c,
  ap (λ k. k.init_task) c,
  ap (λ k. k.cpu) c,
  ap (λ k. k.current) c,
  ap (λ k. k.state) c,
  ap (λ k. k.counter) c,
)

-- The tasks that run or are queued afterwards are those from before, up to the idle task; only a running
-- task that cannot run any more is dropped, if it is not the one that goes on.
abbrev pub Kept : {W : Type 0} → Kernel W → List Ptr → Kernel W → List Ptr → Type 0
Kept s xs t ys =
    (p : Ptr)
    → ((p == idle s) || ((p == this_task t) || has p ys)) ≡ (
        (p == idle s)
        || (has p xs
            || ((p == this_task s) && ((s.state p == task_running) || (p == this_task t)))))

-- What schedule leaves: everything is in order, and no queued task has run less than the running one.
pub record Outcome {W : Type 0} (s : Kernel W) (xs : List Ptr) (t : Kernel W) (ys : List Ptr)
    : Type 0 where
  pub scheduled : IsScheduled t ys
  pub least : All (λ y. t.vruntime (this_task t) ≤ t.vruntime y) ys
  pub same_vruntime : t.vruntime ≡ s.vruntime
  pub same_state : t.state ≡ s.state
  pub same_counter : t.counter ≡ s.counter
  pub kept : Kept s xs t ys

-- The order, told of a state `s` whose fields `t` keeps, with `r` as the task that runs.
pub Outcome-Keeps :
    {W : Type 0} (s t : Kernel W) (xs ys : List Ptr) (r : Ptr)
    → IsQueue t ys
    → t.vruntime ≡ s.vruntime
    → queue t ≡ queue s
    → idle t ≡ idle s
    → this_task t ≡ r
    → t.state ≡ s.state
    → t.counter ≡ s.counter
    → has r (queue s ∷ ys) ≡ false
    → has (idle s) (queue s ∷ ys) ≡ false
    → s.vruntime r ≤ max_vruntime
    → s.vruntime (idle s) ≤ max_vruntime
    → All (λ x. s.vruntime x ≤ max_vruntime) ys
    → All (λ x. s.vruntime r ≤ s.vruntime x) ys
    → Kept s xs t ys
    → Outcome s xs t ys
Outcome-Keeps s t xs ys r q ev eq ei er es ek out iout small ismall all least kept =
    let er' : r ≡ this_task t = sym er in
    record {
      scheduled = record {
        queued = q;
        running_out = ground arith;
        idle_out = ground arith;
        running_small = ground arith;
        idle_small = ground arith;
        small = subst (λ v. All (λ x. v x ≤ max_vruntime) ys) (sym ev) all;
      };
      least =
          subst (λ v. All (λ x. v (this_task t) ≤ v x) ys) (sym ev)
            (subst (λ k. All (λ x. s.vruntime k ≤ s.vruntime x) ys) er' least);
      same_vruntime = ev;
      same_state = es;
      same_counter = ek;
      kept = kept;
    }
