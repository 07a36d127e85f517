-- ===== src/Scheduler/Queue.antt =====
-- The run queue of kernel/sched/scheduler.c: what enqueue_task and pick_next_task do to it.
use s_os.Base.{
  ℕ, suc, ◌≡◌, ◌≤◌, ◌<◌, ◌≢◌, refl, true, false, some, List, [], ◌∷◌, length, arith, subst, sym,
  update, ne→==,
}
use s_os.Base.Int.{pos, ◌+ℤ◌, ◌-ℤ◌}
use s_os.ListHeap.{Ptr, list_add_to_before, list_del}
use s_os.ListHeap.Chain.{has}
use s_os.ListHeap.Ring.{IsRing, list_is_empty-eq, list_next_lem, del-IsRing}
use s_os.ListHeap.Ordered.{
  insert_by, first, place-split, insert-IsRing, IsSortedBy, insert_by-IsSortedBy, length-insert_by,
  first-in, prev_first-in,
}
use s_os.ListHeap.Apart.{Disjoint, before-apart}
use s_os.State.{Kernel}
use s_os.Scheduler.{max_vruntime, queue, pick_next_task, enqueue_task}

-- The queue of this CPU holds `xs`, least vruntime first, and the counter counts them and the idle task.
pub record IsQueue {W : Type 0} (s : Kernel W) (xs : List Ptr) : Type 0 where
  pub ring : IsRing s.links (queue s) xs
  pub sorted : IsSortedBy s.vruntime xs
  pub sentinel : s.vruntime (queue s) ≡ max_vruntime
  pub count : s.running_task_count s.cpu ≡ pos (suc (length xs))

module _ {W : Type 0} (s : Kernel W) (xs : List Ptr) (q : IsQueue s xs) where
  -- The idle task is never linked.
  pub enqueue_task-idle : (f : ℕ) → enqueue_task f s (s.init_task s.cpu) ≡ some s
  unfolding enqueue_task
  enqueue_task-idle f = ground arith

  -- With fuel for the nodes of the queue enqueue_task returns, and another task that is not yet queued
  -- is then linked in front of the first task that has not run less; the queue stays sorted and counted, and other
  -- rings that share no node with it or the task are left alone.
  pub enqueue_task-IsQueue :
      (f : ℕ) (tsk : Ptr)
      → tsk ≢ s.init_task s.cpu
      → s.vruntime tsk ≤ max_vruntime
      → has tsk (queue s ∷ xs) ≡ false
      → length xs < f
      → (t : Kernel W) × (enqueue_task f s tsk ≡ some t)
        × IsQueue t (insert_by s.vruntime tsk xs)
        × (t ≡ record s { links = t.links; running_task_count = t.running_task_count })
        × ((head : Ptr) (zs : List Ptr)
            → IsRing s.links head zs
            → has tsk (head ∷ zs) ≡ false
            → Disjoint (queue s ∷ xs) (head ∷ zs)
            → IsRing t.links head zs)
  unfolding enqueue_task
  enqueue_task-IsQueue f tsk busy small new fuel =
      let (us, vs, e, split, order) =
        place-split s.links s.vruntime tsk (queue s) f xs (omega (arith, q.sentinel)) q.ring fuel in
      let ring = subst (λ l. IsRing s.links (queue s) l) split q.ring in
      let out = subst (λ l. has tsk (queue s ∷ l) ≡ false) split new in
      let links = list_add_to_before s.links (first vs (queue s)) tsk in
      (
        record s {
          links = links;
          running_task_count =
              update s.running_task_count s.cpu (s.running_task_count s.cpu +ℤ pos 1);
        },
        rw (ne→== tsk (s.init_task s.cpu) busy, e, enqueue_task),
        record {
          ring =
              subst (λ l. IsRing links (queue s) l) (sym order)
                (insert-IsRing s.links (queue s) tsk us vs ring out);
          sorted = insert_by-IsSortedBy s.vruntime tsk xs q.sorted;
          sentinel = q.sentinel;
          count = ground (arith, q.count, length-insert_by s.vruntime tsk xs);
        },
        refl,
        (λ head zs r apart_tsk apart.
            let e' = first vs (queue s) in
            before-apart s.links head zs r e' tsk
              (apart e'
                (subst (λ l. has e' (queue s ∷ l) ≡ true) (sym split) (first-in (queue s) us vs)))
              apart_tsk
              (apart (s.links.prev e') (
                subst (λ l. has (s.links.prev e') (queue s ∷ l) ≡ true) (sym split)
                  (prev_first-in s.links (queue s) us vs ring)))),
      )

  -- With fuel for the nodes of the queue enqueue_task returns, and a task that is not idle and not yet
  -- queued is then linked in front of the first task that has not run less; the queue stays sorted and
  -- counted, and only the links and the count change.
  pub enqueue_task-IsSorted :
      (f : ℕ) (tsk : Ptr)
      → tsk ≢ s.init_task s.cpu
      → s.vruntime tsk ≤ max_vruntime
      → has tsk (queue s ∷ xs) ≡ false
      → length xs < f
      → (t : Kernel W) × (enqueue_task f s tsk ≡ some t)
        × IsQueue t (insert_by s.vruntime tsk xs)
        × (t ≡ record s { links = t.links; running_task_count = t.running_task_count })
  enqueue_task-IsSorted f tsk busy small new fuel =
      let (t, e, qt, c, other) = enqueue_task-IsQueue f tsk busy small new fuel in (t, e, qt, c)

  -- On an empty queue pick_next_task answers the idle task and changes nothing.
  pub pick_next_task-idle : xs ≡ [] → pick_next_task s ≡ (s.init_task s.cpu, s)
  unfolding pick_next_task
  pick_next_task-idle e = rw ((list_is_empty-eq s.links (queue s) xs q.ring).0 e)

module _ {W : Type 0} (s : Kernel W) (x : Ptr) (xs : List Ptr) (q : IsQueue s (x ∷ xs)) where
  -- Otherwise it takes out the first task, which has the least vruntime of the queue.
  pub pick_next_task-first :
      (t : Kernel W) × (pick_next_task s ≡ (x, t))
      × IsQueue t xs
      × (t ≡ record s { links = t.links; running_task_count = t.running_task_count })
  unfolding pick_next_task
  pick_next_task-first =
      let e = (list_is_empty-eq s.links (queue s) (x ∷ xs) q.ring).1 cc in
      (
        record s {
          links = list_del s.links x;
          running_task_count =
              update s.running_task_count s.cpu (s.running_task_count s.cpu -ℤ pos 1);
        },
        rw (e, list_next_lem s.links (queue s), q.ring.chain.0),
        record {
          ring = del-IsRing s.links (queue s) x [] xs q.ring;
          sorted = q.sorted.1;
          sentinel = q.sentinel;
          count = ground (arith, q.count);
        },
        refl,
      )
