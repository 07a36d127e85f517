-- ===== src/Lock.antt =====
-- A spin lock and the CPUs that take it, kernel/include/lock/spinlock.h and kernel/include/preempt.h.
--
-- Each CPU is at one of the labels of spin_lock, inside the lock, or between the two parts of spin_unlock.
-- A step is one instruction that touches the lock, or one of the macros on the preempt count, of one CPU;
-- the CPUs' steps come in any order.
pub mod Exclusion
pub mod Invariant
mod Tests
use s_os.Base.{
  ℕ, ◌+◌, ◌-◌, ◌%◌, ◌^◌, ◌≡◌, ◌<◌, Bool, true, false, ◌==◌, ltb, leb, ◌||◌, if◌then◌else◌, update,
}

pub data Place : Type 0 where
  outside : Place
  trying : Place
  spinning : Place
  holding : Place
  leaving : Place

-- `spinlock_T`, a word of 64 bits, with the CPUs' places and the preempt counts of their tasks
pub record Spinlock : Type 0 where
  pub lock : ℕ
  pub place : ℕ → Place
  pub preempt_count : ℕ → ℕ

unfoldable pub spin_init : Spinlock → Spinlock
spin_init s = record s { lock = 1 }

abbrev pub preempt_enable : Spinlock → ℕ → Spinlock
preempt_enable s cpu = record s {
  preempt_count = update s.preempt_count cpu (s.preempt_count cpu - 1);
}

abbrev pub preempt_disable : Spinlock → ℕ → Spinlock
preempt_disable s cpu = record s {
  preempt_count = update s.preempt_count cpu (s.preempt_count cpu + 1);
}

abbrev pub go : Spinlock → ℕ → Place → Spinlock
go s cpu p = record s { place = update s.place cpu p }

-- spin_lock up to label 1
unfoldable pub spin_enter : Spinlock → ℕ → Spinlock
spin_enter s cpu = go (preempt_disable s cpu) cpu trying

-- label 1: `lock decq`, and `jns` to label 3
unfoldable pub spin_try : Spinlock → ℕ → Spinlock
spin_try s cpu =
    let w = (s.lock + (2 ^ 64 - 1)) % 2 ^ 64 in
    go (record s { lock = w }) cpu (if ltb w (2 ^ 63) then holding else spinning)

-- label 2: `cmpq $0`, and `jle` back to label 2
unfoldable pub spin_test : Spinlock → ℕ → Spinlock
spin_test s cpu = if (s.lock == 0) || leb (2 ^ 63) s.lock then s else go s cpu trying

-- the store of spin_unlock
unfoldable pub spin_release : Spinlock → ℕ → Spinlock
spin_release s cpu = go (record s { lock = 1 }) cpu leaving

-- spin_unlock behind its store
unfoldable pub spin_leave : Spinlock → ℕ → Spinlock
spin_leave s cpu = go (preempt_enable s cpu) cpu outside

-- the steps of `n` CPUs
pub data Step (n : ℕ) (s : Spinlock) : Spinlock → Type 0 where
  enters : (cpu : ℕ) → cpu < n → s.place cpu ≡ outside → Step n s (spin_enter s cpu)
  tries : (cpu : ℕ) → cpu < n → s.place cpu ≡ trying → Step n s (spin_try s cpu)
  tests : (cpu : ℕ) → cpu < n → s.place cpu ≡ spinning → Step n s (spin_test s cpu)
  releases : (cpu : ℕ) → cpu < n → s.place cpu ≡ holding → Step n s (spin_release s cpu)
  leaves : (cpu : ℕ) → cpu < n → s.place cpu ≡ leaving → Step n s (spin_leave s cpu)

-- What `n` CPUs reach from a state, where all of them are outside of an initialised lock.
pub data Reach (n : ℕ) (s : Spinlock) : Spinlock → Type 0 where
  start : Reach n s (spin_init (record s { place = λ cpu. outside }))
  later : {t u : Spinlock} → Reach n s t → Step n t u → Reach n s u
