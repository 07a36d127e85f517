-- ===== src/Timer.antt =====
-- Kernel timers, kernel/timer/timer.c.
pub mod Add
pub mod Expire
pub mod Sample
mod Tests
use s_os.Base.{
  ℕ, zero, suc, ◌-◌, ◌^◌, Bool, Option, none, some, not, ◌&&◌, leb, if◌then◌else◌, update, Option,
}
use s_os.ListHeap.{Ptr, list_init, list_add_to_before, list_del, list_is_empty, list_next}
use s_os.ListHeap.Ordered.{place}
use s_os.Softirq.{register_softirq}
use s_os.State.{Kernel, Call}

module _ {W : Type 0} where
  unfoldable pub init_timer : Kernel W → Ptr → Ptr → ℕ → ℕ → Kernel W
  init_timer s timer func arg expire_jiffies = record s {
    links = list_init s.links timer;
    expire_jiffies = update s.expire_jiffies timer expire_jiffies;
    func = update s.func timer func;
    arg = update s.arg timer arg;
  }

  -- `do_timer` is the address of the function of that name; -1UL is 2 ^ 64 - 1.
  unfoldable pub timer_init : Ptr → Kernel W → Kernel W
  timer_init do_timer s =
      let s1 = record s { jiffies = 0 } in
      let s2 = register_softirq s1 0 do_timer 0 in init_timer s2 s.timer_list 0 0 (2 ^ 64 - 1)

  unfoldable pub add_timer : ℕ → Kernel W → Ptr → Option (Kernel W)
  add_timer f s timer =
      elim (place f s.links s.expire_jiffies (s.expire_jiffies timer) s.timer_list) [
        | none ↦ none
        | some tmp ↦ some (record s { links = list_add_to_before s.links tmp timer })
      ]

  unfoldable pub del_timer : Kernel W → Ptr → Kernel W
  del_timer s timer = record s { links = list_del s.links timer }

  -- The loop fires and deletes the timers at the front that are due; the print at its end is left out.
  unfoldable pub do_timer : Call W → ℕ → Kernel W → Option (Kernel W)
  do_timer call zero s = none
  do_timer call (suc f) s =
      let tmp = list_next s.links s.timer_list in
      let s1 = del_timer s tmp in
      let rest = do_timer call f (call (s1.func tmp) (s1.arg tmp) s1) in
      if not (list_is_empty s.links s.timer_list) && leb (s.expire_jiffies tmp) s.jiffies
      then rest
      else some s
