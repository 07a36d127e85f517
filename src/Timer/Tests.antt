-- ===== src/Timer/Tests.antt =====
-- Runs of the timers on the sample state.
use s_os.Base.{ℕ, ◌≡◌, ◌<◌, refl, some, [], ◌∷◌, All, arith}
use s_os.State.{Kernel}
use s_os.State.Sample.{state, act, call, call-OnlyWorld}
use s_os.Timer.Sample.{timers-IsTimerList}
use s_os.Timer.{add_timer, do_timer}
use s_os.Timer.Add.{IsTimerList, add_timer-IsTimerList}
use s_os.Timer.Expire.{later, due, fire, do_timer-fires}
use s_os.ListHeap.Ordered.{insert_by}

add_timer-IsTimerList_example :
    (t : Kernel ℕ) × (add_timer 3 state 53 ≡ some t)
    × IsTimerList t (51 ∷ (53 ∷ (52 ∷ [])))
    × (t ≡ record state { links = t.links })
unfolding insert_by
add_timer-IsTimerList_example =
    add_timer-IsTimerList state (51 ∷ (52 ∷ [])) timers-IsTimerList 53 3 (omega arith) refl
      (omega arith)

do_timer-fires_example :
    (t : Kernel ℕ) × (do_timer call 3 state ≡ some t)
    × IsTimerList t (52 ∷ [])
    × All (λ x. state.jiffies < state.expire_jiffies x) (52 ∷ [])
    × (t ≡ record state { links = t.links; world = 51 })
unfolding due later fire
do_timer-fires_example =
    do_timer-fires call act call-OnlyWorld 3 (51 ∷ (52 ∷ [])) state timers-IsTimerList (omega arith)
