-- ===== src/Hpet.antt =====
-- The upper half of the clock interrupt, HPET_handler of kernel/device/HPET.c. The command that is
-- written to the interrupt command register at its end, to forward the tick to the other CPUs, is left
-- out: it changes no memory.
mod Tick
mod Tests
use s_os.Base.{ℕ, ◌+◌, ◌%◌, ◌^◌, leb, if◌then◌else◌}
use s_os.ListHeap.{list_next}
use s_os.Scheduler.{update_cur_runtime}
use s_os.Softirq.{set_softirq_status}
use s_os.State.{Kernel}

-- TIMER_SIRQ of kernel/include/softirq.h
abbrev pub timer_sirq : ℕ
timer_sirq = 1

module _ {W : Type 0} where
  unfoldable pub hpet_handler : Kernel W → Kernel W
  hpet_handler s =
      let s1 = record s { jiffies = (s.jiffies + 1) % 2 ^ 64 } in
      let s2 =
        if leb (s1.expire_jiffies (list_next s1.links s1.timer_list)) s1.jiffies
        then set_softirq_status s1 timer_sirq
        else s1 in
      update_cur_runtime s2
