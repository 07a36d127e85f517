-- ===== src/Scheduler/Tests.antt =====
-- Runs of the scheduler on the sample state.
use s_os.Base.{ℕ, ◌≡◌, ◌≤◌, refl, some, List, [], ◌∷◌, arith}
use s_os.Base.Int.{negsuc}
use s_os.ListHeap.{Ptr}
use s_os.State.{Kernel, this_task}
use s_os.State.Sample.{state}
use s_os.Scheduler.Sample.{state-IsScheduled}
use s_os.Scheduler.{schedule}
use s_os.Scheduler.Outcome.{Outcome}
use s_os.Scheduler.Choice.{schedule-Outcome}
use s_os.Scheduler.Timeslice.{rounds, rounds-negative}

schedule-Outcome_example :
    (t : Kernel ℕ) × (ys : List Ptr) × (schedule 3 state ≡ some t)
    × Outcome state (11 ∷ (12 ∷ [])) t ys
    × (this_task t ≡ 11)
schedule-Outcome_example = schedule-Outcome state (11 ∷ (12 ∷ [])) state-IsScheduled 3 (omega arith)

abbrev late : Kernel ℕ
late = record state { cpu_exec_task_jiffies = λ i. negsuc 0 }

rounds-negative_example :
    (t : Kernel ℕ) × (m : ℕ) × (rounds (λ k. 11) 5 late ≡ some t)
    × (t.cpu_exec_task_jiffies t.cpu ≡ negsuc m)
    × (5 ≤ m)
rounds-negative_example = rounds-negative (λ k. 11) 5 late 0 refl
