-- ===== src/Semaphore/Tests.antt =====
-- Runs of the semaphore operations on the sample state.
use s_os.Base.{ℕ, ◌≡◌, refl, some, List, [], ◌∷◌, arith}
use s_os.Base.Int.{pos}
use s_os.ListHeap.{Ptr}
use s_os.ListHeap.Apart.{Disjoint}
use s_os.ListHeap.Ordered.{insert_by}
use s_os.ListHeap.Ring.{IsRing}
use s_os.Scheduler.{task_running}
use s_os.Scheduler.Queue.{IsQueue}
use s_os.Scheduler.Schedule.{IsScheduled}
use s_os.Scheduler.Sample.{state-IsQueue, state-IsScheduled}
use s_os.Semaphore.{semaphore_up, semaphore_down, task_uninterruptible}
use s_os.Semaphore.Wait.{semaphore_up-wakes, semaphore_down-waits}
use s_os.State.{Kernel, this_task}
use s_os.State.Sample.{state, links, waiters-IsRing}

free-IsRing : IsRing links 62 []
free-IsRing = record { chain = (refl, refl); distinct = (refl, tt) }

apart : Disjoint (60 ∷ (61 ∷ [])) (100 ∷ (11 ∷ (12 ∷ [])))
apart p m = ground arith

-- a semaphore with two units
abbrev units : Kernel ℕ
units = record state { counter = λ p. pos 2 }

semaphore_up-wakes_example :
    (t : Kernel ℕ) × (semaphore_up 3 state 60 ≡ some t)
    × IsQueue t (11 ∷ (14 ∷ (12 ∷ [])))
    × (t.state 14 ≡ task_running)
    × (t.counter ≡ state.counter)
    × IsRing t.links 60 []
unfolding insert_by
semaphore_up-wakes_example =
    semaphore_up-wakes 3 state 60 61 [] (11 ∷ (12 ∷ [])) waiters-IsRing state-IsQueue apart refl
      refl (ground arith) (omega arith) (omega arith)

semaphore_down-waits_example :
    (t : Kernel ℕ) × (ys : List Ptr) × (semaphore_down 3 state 60 63 ≡ some t)
    × IsScheduled t ys
    × (t.state 13 ≡ task_uninterruptible)
    × (t.counter ≡ state.counter)
    × (this_task t ≡ 11)
semaphore_down-waits_example =
    semaphore_down-waits 3 state 60 63 (61 ∷ []) (11 ∷ (12 ∷ [])) (omega arith) waiters-IsRing
      state-IsScheduled refl refl apart (omega arith)
