-- ===== src/Lock/Tests.antt =====
-- Two CPUs at one lock: the first gets it, the second waits, and the first gives it back.
use s_os.Base.{ℕ, ◌+◌, ◌≡◌, ◌≢◌, refl, arith}
use s_os.Lock.{
  outside, trying, spinning, holding, Spinlock, spin_init, spin_enter, spin_try, spin_test,
  spin_release, enters, tries, releases, Reach, start, later,
}
use s_os.Lock.Exclusion.{Reach-exclusion, Reach-progress}

abbrev before : Spinlock
before = record { lock = 0; place = λ c. outside; preempt_count = λ c. 5 }

abbrev first_inside : Spinlock
first_inside = spin_try (spin_enter (spin_init before) 0) 0

abbrev second_waits : Spinlock
second_waits = spin_try (spin_enter first_inside 1) 1

abbrev given_back : Spinlock
given_back = spin_release second_waits 0

second_waits-reached : Reach 2 before second_waits
unfolding spin_init spin_enter spin_try
second_waits-reached =
    later
      (later (later (later start (enters 0 (omega arith) refl)) (tries 0 (omega arith) refl))
        (enters 1 (omega arith) refl))
      (tries 1 (omega arith) refl)

first_holds : second_waits.place 0 ≡ holding
unfolding spin_init spin_enter spin_try
first_holds = refl

waits : second_waits.place 1 ≡ spinning
unfolding spin_init spin_enter spin_try
waits = refl

given_back-free : (c : ℕ) → given_back.place c ≢ holding
unfolding spin_init spin_enter spin_try spin_release
given_back-free c h = ground (arith, h)

given_back-reached : Reach 2 before given_back
given_back-reached = later second_waits-reached (releases 0 (omega arith) first_holds)

Reach-exclusion_example :
    ◌≡◌ {A = ℕ} 0 0 × (second_waits.preempt_count 0 ≡ before.preempt_count 0 + 1)
Reach-exclusion_example =
    Reach-exclusion 2 before second_waits 0 0 (omega arith) second_waits-reached first_holds
      first_holds

Reach-progress_example :
    ((spin_try given_back 1).place 1 ≡ holding) × ((spin_test given_back 1).place 1 ≡ trying)
Reach-progress_example =
    Reach-progress 2 before given_back 1 (omega arith) given_back-reached given_back-free
