-- ===== src/Task/Fork.antt =====
-- The process that do_fork and kernel_thread of kernel/sched/task.c make.
use Prim.Native.Nat.{bit_and}
use s_os.Memory.Init.{pg_kernel}
use s_os.Base.{
  ℕ, ◌+◌, ◌≡◌, ◌≤◌, ◌<◌, ◌≢◌, refl, sym, ap, subst, true, false, some, List, [], ◌∷◌, length, ◌==◌,
  if◌then◌else◌, update, arith, All,
}
use s_os.ListHeap.{Ptr, list_init}
use s_os.ListHeap.Chain.{has, ne_of_has}
use s_os.ListHeap.Apart.{IsRing-frame}
use s_os.ListHeap.Ordered.{insert_by, IsSortedBy}
use s_os.State.{Kernel, this_task}
use s_os.Memory.{Memory, found, alloc_pages, zone_normal, pg_ptable_maped}
use s_os.Scheduler.{max_vruntime, queue, task_running}
use s_os.Scheduler.Queue.{IsQueue, enqueue_task-IsSorted}
use s_os.Slab.Kmalloc.{phy_to_virt}
use s_os.Task.{
  Tasks, Regs, Thread, copy_task, fork_task, fork_thread, fork_at, do_fork, thread_regs,
  kernel_thread, stack_words, kernel_thread_func, list_offset, pf_kthread,
}

above-same :
    (key other : Ptr → ℕ) (a : ℕ) (xs : List Ptr)
    → ((p : Ptr) → has p xs ≡ true → other p ≡ key p)
    → All (λ y. a ≤ key y) xs
    → All (λ y. a ≤ other y) xs
above-same key other a [] same l = tt
above-same key other a (x ∷ xs) same l =
    (ground (arith, same x, l.0), above-same key other a xs (λ p m. same p (ground arith)) l.1)

IsSortedBy-same :
    (key other : Ptr → ℕ) (xs : List Ptr)
    → ((p : Ptr) → has p xs ≡ true → other p ≡ key p)
    → IsSortedBy key xs
    → IsSortedBy other xs
IsSortedBy-same key other [] same l = tt
IsSortedBy-same key other (x ∷ xs) same l =
    let e : key x ≡ other x = sym (same x (ground arith)) in
    (
      subst (λ a. All (λ y. a ≤ other y) xs) e
          (above-same key other (key x) xs (λ p m. same p (ground arith)) l.0),
      IsSortedBy-same key other xs (λ p m. same p (ground arith)) l.1,
    )

module _ {W : Type 0} (s : Tasks W) (xs : List Ptr) (tsk : Ptr) (q : IsQueue s.kernel xs)
    (new : has tsk (queue s.kernel ∷ xs) ≡ false) where
  fork_task-IsQueue : IsQueue (fork_task s tsk).kernel xs
  unfolding fork_task copy_task list_init
  fork_task-IsQueue =
      let t = (fork_task s tsk).kernel in
      let head = queue s.kernel in
      record {
        ring =
            IsRing-frame s.kernel.links head xs q.ring t.links
              (λ p m. ground (arith, ne_of_has p tsk (head ∷ xs) m new))
              (λ p m. ground (arith, ne_of_has p tsk (head ∷ xs) m new));
        sorted =
            IsSortedBy-same s.kernel.vruntime t.vruntime xs
              (λ p m. ground (arith, ne_of_has p tsk xs m)) q.sorted;
        sentinel = ground (arith, q.sentinel);
        count = q.count;
      }

-- In `t` the task is a running one of its own with the virtual run time of the task that made it, and the
-- registers stand at its stack pointer.
pub record Forked {W : Type 0} (ret : ℕ) (s t : Tasks W) (tsk : Ptr) (regs : Regs) : Type 0 where
  pub running : t.kernel.state tsk ≡ task_running
  pub number : t.pid tsk ≡ s.pid (this_task s.kernel) + 1
  pub age : t.kernel.vruntime tsk ≡ s.kernel.vruntime (this_task s.kernel)
  pub preemptible : t.preempt_count tsk ≡ 0
  pub entry :
      (t.thread_struct (t.thread tsk)).rip
      ≡ (if bit_and (s.kernel.flags (this_task s.kernel)) pf_kthread == 0 then ret else regs.rip)
  pub saved : t.pt_regs (t.thread_struct (t.thread tsk)).rsp ≡ regs

module _ {W : Type 0} (ret : ℕ) (s : Tasks W) (base : ℕ) (regs : Regs) where
  abbrev prepared : Tasks W
  prepared = (fork_thread ret (fork_task s (base + list_offset)) base (base + list_offset) regs).1

  abbrev woken : Kernel W
  woken = record prepared.kernel {
    state = update prepared.kernel.state (base + list_offset) task_running;
  }

  woken-Forked :
      (k : Kernel W)
      → k ≡ record woken { links = k.links; running_task_count = k.running_task_count }
      → Forked ret s (record prepared { kernel = k }) (base + list_offset) regs
  unfolding fork_task copy_task fork_thread
  woken-Forked k frame =
      subst
        (λ (r : Kernel W). Forked ret s (record prepared { kernel = r }) (base + list_offset) regs)
        (sym frame)
        (record {
          running = ground arith;
          number = ground arith;
          age = ground arith;
          preemptible = ground arith;
          entry = ground arith;
          saved = ground arith;
        })

  woken-IsQueue :
      (xs : List Ptr) → IsQueue (fork_task s (base + list_offset)).kernel xs → IsQueue woken xs
  unfolding fork_thread
  woken-IsQueue xs q = record {
    ring = q.ring;
    sorted = q.sorted;
    sentinel = q.sentinel;
    count = q.count;
  }

  fork_at-queued :
      (f : ℕ) (xs : List Ptr)
      → IsQueue s.kernel xs
      → has (base + list_offset) (queue s.kernel ∷ xs) ≡ false
      → base + list_offset ≢ s.kernel.init_task s.kernel.cpu
      → s.kernel.vruntime (this_task s.kernel) ≤ max_vruntime
      → length xs < f
      → (t : Tasks W) × (regs1 : Regs) × (fork_at ret f s base regs ≡ some (0, regs1, t))
        × IsQueue t.kernel (insert_by t.kernel.vruntime (base + list_offset) xs)
        × Forked ret s t (base + list_offset) regs
  unfolding fork_at fork_task copy_task fork_thread
  fork_at-queued f xs q new busy young fuel =
      let tsk = base + list_offset in
      let q1 = woken-IsQueue xs (fork_task-IsQueue s xs tsk q new) in
      let age : woken.vruntime tsk ≤ max_vruntime = ground (arith, young) in
      let (k, e, qk, frame) = enqueue_task-IsSorted woken xs q1 f tsk busy age new fuel in
      let same : woken.vruntime ≡ k.vruntime = sym (ap (λ (r : Kernel W). r.vruntime) frame) in
      (
        record prepared { kernel = k },
        (fork_thread ret (fork_task s tsk) base tsk regs).0,
        rw (e, fork_at) refl,
        subst (λ (key : Ptr → ℕ). IsQueue k (insert_by key tsk xs)) same qk,
        woken-Forked k frame,
      )

-- With a page, and fuel for the queue, do_fork returns 0, and the task in that page is queued by the virtual
-- run time that it shares with the task that runs: it is running, may be preempted, has the next number, and the
-- registers at its stack pointer. It starts where the registers say if the task that runs is a kernel
-- thread, and at ret_system_call otherwise.
pub do_fork-Forked :
    {W : Type 0} (ret f : ℕ) (s : Tasks W) (regs : Regs) (clone_flags start size page base : ℕ)
    (m : Memory) (xs : List Ptr)
    → alloc_pages s.memory zone_normal 1 (pg_ptable_maped + pg_kernel) ≡ found page m
    → phy_to_virt (m.pages_struct page).phy_address ≡ base
    → IsQueue s.kernel xs
    → has (base + list_offset) (queue s.kernel ∷ xs) ≡ false
    → base + list_offset ≢ s.kernel.init_task s.kernel.cpu
    → s.kernel.vruntime (this_task s.kernel) ≤ max_vruntime
    → length xs < f
    → (t : Tasks W) × (regs1 : Regs) × (do_fork ret f s regs clone_flags start size
        ≡ some (0, regs1, t))
      × IsQueue t.kernel (insert_by t.kernel.vruntime (base + list_offset) xs)
      × Forked ret s t (base + list_offset) regs
unfolding do_fork
do_fork-Forked ret f s regs clone_flags start size page base m xs paged placed q new busy young
      fuel =
    let (t, regs1, e, k, o) =
      fork_at-queued ret (record s { memory = m }) base regs f xs q new busy young fuel in
    (
      t,
      regs1,
      rw (paged, placed, do_fork) e,
      k,
      record {
        running = o.running;
        number = o.number;
        age = o.age;
        preemptible = o.preemptible;
        entry = o.entry;
        saved = o.saved;
      },
    )

-- A kernel thread that is made by a kernel thread is queued, starts at kernel_thread_func, and this pops its
-- function and its argument from the stack.
pub kernel_thread-starts :
    {W : Type 0} (ret entry f : ℕ) (s : Tasks W) (fn arg flags page base : ℕ) (m : Memory)
    (xs : List Ptr)
    → alloc_pages s.memory zone_normal 1 (pg_ptable_maped + pg_kernel) ≡ found page m
    → phy_to_virt (m.pages_struct page).phy_address ≡ base
    → IsQueue s.kernel xs
    → has (base + list_offset) (queue s.kernel ∷ xs) ≡ false
    → base + list_offset ≢ s.kernel.init_task s.kernel.cpu
    → s.kernel.vruntime (this_task s.kernel) ≤ max_vruntime
    → length xs < f
    → bit_and (s.kernel.flags (this_task s.kernel)) pf_kthread ≢ 0
    → (t : Tasks W) × (thread : Thread) × (kernel_thread ret entry f s fn arg flags ≡ some (0, t))
      × IsQueue t.kernel (insert_by t.kernel.vruntime (base + list_offset) xs)
      × (t.thread_struct (t.thread (base + list_offset)) ≡ thread)
      × (thread.rip ≡ entry)
      × (kernel_thread_func (stack_words (t.pt_regs thread.rsp)) ≡ some (fn, arg))
unfolding kernel_thread kernel_thread_func thread_regs
kernel_thread-starts ret entry f s fn arg flags page base m xs paged placed q new busy young fuel
      kernel =
    let (t, regs1, e, k, o) =
      do_fork-Forked ret f s (thread_regs entry fn arg) flags 0 0 page base m xs paged placed q new
        busy young fuel in
    (
      t,
      t.thread_struct (t.thread (base + list_offset)),
      rw (e, kernel_thread) refl,
      k,
      refl,
      ground (arith, o.entry),
      rw (o.saved) refl,
    )
