-- ===== src/Hpet/Tick.antt =====
-- When a clock tick of HPET_handler, kernel/device/HPET.c, asks for the timer soft interrupt.
use Prim.Native.Nat.{bit_or}
use s_os.Base.{
  ℕ, ◌+◌, ◌-◌, ◌^◌, ◌%◌, ◌≡◌, ◌≤◌, ◌<◌, refl, Bool, false, List, [], ◌∷◌, ◌==◌, ◌||◌, ◌&&◌, leb,
  arith, All, Bool-cases, inl, inr,
}
use s_os.Base.Bits.{test_bit, test-or, test-pow}
use s_os.Hpet.{hpet_handler, timer_sirq}
use s_os.ListHeap.{Ptr, list_next}
use s_os.ListHeap.Ordered.{first, IsSortedBy}
use s_os.ListHeap.Ring.{list_next_lem}
use s_os.Scheduler.{update_cur_runtime}
use s_os.Softirq.{set_softirq_status}
use s_os.State.{Kernel}
use s_os.Timer.Add.{IsTimerList}

-- Is the time of some timer of the list over?
unfoldable pub any_due : (Ptr → ℕ) → ℕ → List Ptr → Bool
any_due key now [] = false
any_due key now (x ∷ xs) = leb (key x) now || any_due key now xs

none_due :
    (key : Ptr → ℕ) (now : ℕ) (k : ℕ) (xs : List Ptr)
    → All (λ y. k ≤ key y) xs
    → now < k
    → any_due key now xs ≡ false
unfolding any_due
none_due key now k [] a h = refl
none_due key now k (x ∷ xs) a h = ground (arith, none_due key now k xs a.1 h)

-- In a sorted list the first timer tells.
first-any_due :
    (key : Ptr → ℕ) (now : ℕ) (head : Ptr) (xs : List Ptr)
    → IsSortedBy key xs
    → now < key head
    → leb (key (first xs head)) now ≡ any_due key now xs
unfolding any_due
first-any_due key now head [] a h = ground arith
first-any_due key now head (x ∷ xs) a h = elim (Bool-cases (leb (key x) now)) [
  | inl le ↦ ground arith
  | inr gt ↦ ground (arith, none_due key now (key x) xs a.0)
]

or-timer_sirq : (w i : ℕ) → test_bit (bit_or w timer_sirq) i ≡ (test_bit w i || (i == 0))
or-timer_sirq w i = ground (arith, test-or w 1 i, test-pow 0 i)

first_next :
    {W : Type 0} (s : Kernel W) (xs : List Ptr)
    → IsTimerList s xs
    → list_next s.links s.timer_list ≡ first xs s.timer_list
first_next s [] l = rw (list_next_lem s.links s.timer_list) l.ring.chain.0
first_next s (x ∷ xs) l = rw (list_next_lem s.links s.timer_list) l.ring.chain.0

module _ {W : Type 0} (s : Kernel W) (xs : List Ptr) (list : IsTimerList s xs) where
  -- While the clock is below its last two values, a tick adds one to it and raises the timer soft
  -- interrupt exactly if the time of some timer of the list is over; no other bit of the status and
  -- no link changes.
  pub hpet_handler-raises :
      s.jiffies + 1 < 2 ^ 64 - 1
      → ((hpet_handler s).jiffies ≡ s.jiffies + 1)
        × ((i : ℕ)
            → test_bit (hpet_handler s).softirq_status i ≡ (
                test_bit s.softirq_status i
                || ((i == 0) && any_due s.expire_jiffies (s.jiffies + 1) xs)))
        × ((hpet_handler s).links ≡ s.links)
  unfolding hpet_handler set_softirq_status update_cur_runtime
  hpet_handler-raises small =
      let same : (s.jiffies + 1) % 2 ^ 64 ≡ s.jiffies + 1 = omega arith in
      let head = first_next s xs list in
      let due =
        first-any_due s.expire_jiffies (s.jiffies + 1) s.timer_list xs list.sorted
          (omega (arith, list.sentinel)) in
      elim (Bool-cases (any_due s.expire_jiffies (s.jiffies + 1) xs)) [
        | inl h ↦
            rw (same, head, due, h)
              (refl, (λ i. ground (arith, or-timer_sirq s.softirq_status i)), refl)
        | inr h ↦ rw (same, head, due, h) (refl, (λ i. ground arith), refl)
      ]
