-- ===== src/Timer/Expire.antt =====
-- do_timer of kernel/timer/timer.c: which timers it fires.
use s_os.Base.{
  ℕ, zero, suc, ◌≡◌, ◌≤◌, ◌<◌, refl, true, false, some, List, [], ◌∷◌, ◌++◌, length, arith, leb,
  if◌then◌else◌, Bool-cases, inl, inr, ap, ◌∙◌, All, All-map,
}
use s_os.ListHeap.{Ptr, list_del}
use s_os.ListHeap.Ring.{list_is_empty-eq, list_next_lem, del-IsRing}
use s_os.ListHeap.Ordered.{IsSortedBy}
use s_os.State.{Kernel, Call, OnlyWorld}
use s_os.Timer.{del_timer, do_timer}
use s_os.Timer.Add.{IsTimerList}

module _ (key : Ptr → ℕ) (now : ℕ) where
  -- the timers at the front that are due, and the rest
  unfoldable pub due : List Ptr → List Ptr
  due [] = []
  due (x ∷ xs) = if leb (key x) now then x ∷ due xs else []

  unfoldable pub later : List Ptr → List Ptr
  later [] = []
  later (x ∷ xs) = if leb (key x) now then later xs else x ∷ xs

  pub due-append-later : (xs : List Ptr) → due xs ++ later xs ≡ xs
  unfolding due later
  due-append-later [] = refl
  due-append-later (x ∷ xs) = elim (Bool-cases (leb (key x) now)) [
    | inl h ↦ rw h (ap (λ l. x ∷ l) (due-append-later xs))
    | inr h ↦ rw h
  ]

  pub All-due : (xs : List Ptr) → All (λ x. key x ≤ now) (due xs)
  unfolding due
  All-due [] = tt
  All-due (x ∷ xs) = elim (Bool-cases (leb (key x) now)) [
    | inl h ↦ rw h (ground arith, All-due xs)
    | inr h ↦ rw h tt
  ]

  pub All-later : (xs : List Ptr) → IsSortedBy key xs → All (λ x. now < key x) (later xs)
  unfolding later
  All-later [] s = tt
  All-later (x ∷ xs) s = elim (Bool-cases (leb (key x) now)) [
    | inl h ↦ rw h (All-later xs s.1)
    | inr h ↦
        rw h (
          ground arith,
          All-map (λ y. key x ≤ key y) (λ y. now < key y) xs (λ y l. ground arith) s.0,
        )
  ]

-- The specification: the handlers of these timers run one after the other.
unfoldable pub fire : {W : Type 0} → (Ptr → ℕ → W → W) → (Ptr → Ptr) → (Ptr → ℕ) → List Ptr → W → W
fire act func arg [] w = w
fire act func arg (x ∷ xs) w = fire act func arg xs (act (func x) (arg x) w)

module _ {W : Type 0} (call : Call W) (act : Ptr → ℕ → W → W) (quiet : OnlyWorld call act) where
  do_timer-step :
      (f : ℕ) (s : Kernel W) (x : Ptr) (xs : List Ptr)
      → IsTimerList s (x ∷ xs)
      → s.expire_jiffies x ≤ s.jiffies
      → do_timer call (suc f) s
        ≡ do_timer call f
            (record s { links = list_del s.links x; world = act (s.func x) (s.arg x) s.world })
  unfolding do_timer del_timer
  do_timer-step f s x xs l h =
      let e = (list_is_empty-eq s.links s.timer_list (x ∷ xs) l.ring).1 cc in
      let le : leb (s.expire_jiffies x) s.jiffies ≡ true = ground arith in
      rw (
        list_next_lem s.links s.timer_list,
        l.ring.chain.0,
        e,
        le,
        quiet (s.func x) (s.arg x) (record s { links = list_del s.links x }),
      )

  do_timer-stop :
      (f : ℕ) (s : Kernel W) (x : Ptr) (xs : List Ptr)
      → IsTimerList s (x ∷ xs)
      → leb (s.expire_jiffies x) s.jiffies ≡ false
      → do_timer call (suc f) s ≡ some s
  unfolding do_timer
  do_timer-stop f s x xs l h =
      let e = (list_is_empty-eq s.links s.timer_list (x ∷ xs) l.ring).1 cc in
      rw (list_next_lem s.links s.timer_list, l.ring.chain.0, e, h)

  do_timer-empty : (f : ℕ) (s : Kernel W) → IsTimerList s [] → do_timer call (suc f) s ≡ some s
  unfolding do_timer
  do_timer-empty f s l = rw ((list_is_empty-eq s.links s.timer_list [] l.ring).0 refl)

  -- With fuel for the nodes of the list do_timer returns. If the handlers leave the kernel's
  -- structures alone, it has run the handlers of the due timers, earliest first, and left exactly the
  -- timers that are not due in the list; nothing else has changed.
  pub do_timer-fires :
      (f : ℕ) (xs : List Ptr) (s : Kernel W)
      → IsTimerList s xs
      → length xs < f
      → (t : Kernel W) × (do_timer call f s ≡ some t)
        × IsTimerList t (later s.expire_jiffies s.jiffies xs)
        × All (λ x. s.jiffies < s.expire_jiffies x) (later s.expire_jiffies s.jiffies xs)
        × (t ≡ record s {
          links = t.links;
          world = fire act s.func s.arg (due s.expire_jiffies s.jiffies xs) s.world;
        })
  unfolding due later fire
  do_timer-fires zero xs s l fuel = absurd (omega arith)
  do_timer-fires (suc f) [] s l fuel = (s, do_timer-empty f s l, l, tt, refl)
  do_timer-fires (suc f) (x ∷ xs) s l fuel =
      elim (Bool-cases (leb (s.expire_jiffies x) s.jiffies)) [
        | inl h ↦
            let s1 = record s {
              links = list_del s.links x;
              world = act (s.func x) (s.arg x) s.world;
            } in
            let l1 : IsTimerList s1 xs = record {
              ring = del-IsRing s.links s.timer_list x [] xs l.ring;
              sorted = l.sorted.1;
              sentinel = l.sentinel;
            } in
            let (t, e, l2, a, c) = do_timer-fires f xs s1 l1 (omega arith) in
            rw h (t, do_timer-step f s x xs l (ground arith) ∙ e, l2, a, c)
        | inr h ↦ rw h (
          s,
          do_timer-stop f s x xs l h,
          l,
          (
            ground arith,
            All-map (λ y. s.expire_jiffies x ≤ s.expire_jiffies y)
                (λ y. s.jiffies < s.expire_jiffies y) xs (λ y q. ground arith) l.sorted.0,
          ),
          refl,
        )
      ]
