-- ===== src/Timer/Add.antt =====
-- add_timer of kernel/timer/timer.c: where a timer is linked.
use s_os.Base.{ℕ, ◌-◌, ◌^◌, ◌≡◌, ◌<◌, refl, false, some, List, ◌∷◌, length, arith, subst, sym}
use s_os.ListHeap.{Ptr, list_add_to_before}
use s_os.ListHeap.Chain.{has}
use s_os.ListHeap.Ring.{IsRing}
use s_os.ListHeap.Ordered.{
  insert_by, first, place-split, insert-IsRing, IsSortedBy, insert_by-IsSortedBy,
}
use s_os.State.{Kernel}
use s_os.Timer.{add_timer}

-- The timer list holds `xs`, earliest first; its head has the largest time there is.
pub record IsTimerList {W : Type 0} (s : Kernel W) (xs : List Ptr) : Type 0 where
  pub ring : IsRing s.links s.timer_list xs
  pub sorted : IsSortedBy s.expire_jiffies xs
  pub sentinel : s.expire_jiffies s.timer_list ≡ 2 ^ 64 - 1

module _ {W : Type 0} (s : Kernel W) (xs : List Ptr) (list : IsTimerList s xs) (timer : Ptr) where
  -- With fuel for the nodes of the list add_timer returns, and a timer that is not yet linked is then
  -- linked in front of the first timer that is not earlier, so that the list stays sorted. Only the
  -- links change.
  pub add_timer-IsTimerList :
      (f : ℕ)
      → s.expire_jiffies timer < 2 ^ 64
      → has timer (s.timer_list ∷ xs) ≡ false
      → length xs < f
      → (t : Kernel W) × (add_timer f s timer ≡ some t)
        × IsTimerList t (insert_by s.expire_jiffies timer xs)
        × (t ≡ record s { links = t.links })
  unfolding add_timer
  add_timer-IsTimerList f small new fuel =
      let (us, vs, e, split, order) =
        place-split s.links s.expire_jiffies timer s.timer_list f xs (omega arith) list.ring fuel in
      let ring = subst (λ l. IsRing s.links s.timer_list l) split list.ring in
      let out = subst (λ l. has timer (s.timer_list ∷ l) ≡ false) split new in
      let links = list_add_to_before s.links (first vs s.timer_list) timer in
      (
        record s { links = links },
        rw (e, add_timer),
        record {
          ring =
              subst (λ l. IsRing links s.timer_list l) (sym order)
                (insert-IsRing s.links s.timer_list timer us vs ring out);
          sorted = insert_by-IsSortedBy s.expire_jiffies timer xs list.sorted;
          sentinel = list.sentinel;
        },
        refl,
      )
