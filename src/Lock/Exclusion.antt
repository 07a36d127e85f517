-- ===== src/Lock/Exclusion.antt =====
-- One CPU at a time is inside a spin lock.
use s_os.Base.{ℕ, ◌+◌, ◌^◌, ◌≡◌, ◌<◌, ◌≢◌, refl, true, arith, inl, inr}
use s_os.Lock.{
  Place, outside, trying, spinning, holding, leaving, Spinlock, spin_try, spin_test, Reach,
}
use s_os.Lock.Invariant.{is_holding, Reach-IsSpinlock, try-free}

-- Whatever the order of the steps of fewer than 2^63 CPUs, no two of them are inside the lock, and the
-- preempt count of each CPU's task is one more than at the start exactly while the CPU is at the lock.
pub Reach-exclusion :
    (n : ℕ) (s t : Spinlock) (i j : ℕ)
    → n < 2 ^ 63
    → Reach n s t
    → t.place i ≡ holding
    → t.place j ≡ holding
    → (i ≡ j) × (t.preempt_count i ≡ s.preempt_count i + 1)
Reach-exclusion n s t i j small r hi hj =
    let o = Reach-IsSpinlock n small s t r in
    elim o.state [
      | inl f ↦ ground (arith, f.nobody i, hi)
      | inr h ↦ (ground (arith, h.only i, h.only j, hi, hj), ground (arith, o.counts i, hi))
    ]

is_holding-eq : (p : Place) → is_holding p ≡ true → p ≡ holding
is_holding-eq holding h = refl
is_holding-eq outside h = ground (arith, h)
is_holding-eq trying h = ground (arith, h)
is_holding-eq spinning h = ground (arith, h)
is_holding-eq leaving h = ground (arith, h)

-- Whatever has happened before, while none of fewer than 2^63 CPUs is inside the lock, the next one that
-- decrements its word gets in, and one that tests it is let out of the loop to try again.
pub Reach-progress :
    (n : ℕ) (s t : Spinlock) (i : ℕ)
    → n < 2 ^ 63
    → Reach n s t
    → ((c : ℕ) → t.place c ≢ holding)
    → ((spin_try t i).place i ≡ holding) × ((spin_test t i).place i ≡ trying)
unfolding spin_test
Reach-progress n s t i small r nobody =
    let o = Reach-IsSpinlock n small s t r in
    elim o.state [
      | inl f ↦ (rw (try-free t i f.word) (ground arith), rw f.word (ground arith))
      | inr h ↦
          absurd
            (nobody h.holder (is_holding-eq (t.place h.holder) (ground (arith, h.only h.holder))))
    ]
