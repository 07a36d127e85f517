-- ===== src/Hpet/Tests.antt =====
-- A tick on the sample state.
use s_os.Base.{ℕ, ◌≡◌, true, [], ◌∷◌, ◌==◌, ◌||◌, ◌&&◌, arith}
use s_os.Base.Bits.{test_bit}
use s_os.Hpet.{hpet_handler}
use s_os.Hpet.Tick.{any_due, hpet_handler-raises}
use s_os.State.Sample.{state}
use s_os.Timer.Sample.{timers-IsTimerList}

hpet_handler-raises_example :
    ((hpet_handler state).jiffies ≡ 11)
    × ((i : ℕ)
        → test_bit (hpet_handler state).softirq_status i ≡ (test_bit 5 i || ((i == 0) && true)))
    × ((hpet_handler state).links ≡ state.links)
unfolding any_due
hpet_handler-raises_example =
    hpet_handler-raises state (51 ∷ (52 ∷ [])) timers-IsTimerList (omega arith)
