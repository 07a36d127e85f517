-- ===== src/Lock/Invariant.antt =====
-- The word of a spin lock counts the CPUs that wait for it, and the preempt counts follow.
use s_os.Base.{
  ℕ, zero, suc, ◌+◌, ◌-◌, ◌%◌, ◌^◌, ◌≡◌, ◌≤◌, ◌<◌, refl, ◌∙◌, sym, subst, ap, Bool, true, false,
  ◌==◌, ltb, leb, ◌||◌, if◌then◌else◌, update, arith, ◌⊎◌, inl, inr, Bool-cases,
}
use s_os.Lock.{
  Place, outside, trying, spinning, holding, leaving, Spinlock, spin_init, spin_enter, spin_try,
  spin_test, spin_release, spin_leave, go, Step, enters, tries, tests, releases, leaves, Reach,
  start, later,
}

abbrev pub is_holding : Place → Bool
is_holding holding = true
is_holding _ = false

abbrev pub is_spinning : Place → Bool
is_spinning spinning = true
is_spinning _ = false

abbrev pub is_outside : Place → Bool
is_outside outside = true
is_outside _ = false

-- the number of CPUs in the loop behind label 2
unfoldable pub spinners : ℕ → (ℕ → Place) → ℕ
spinners zero p = 0
spinners (suc n) p = spinners n p + (if is_spinning (p n) then 1 else 0)

spinners-le : (n : ℕ) (p : ℕ → Place) → spinners n p ≤ n
unfolding spinners
spinners-le zero p = omega arith
spinners-le (suc n) p = ground (arith, spinners-le n p)

spinners-outside :
    (n : ℕ) (p : ℕ → Place) (c : ℕ) (x : Place) → n ≤ c → spinners n (update p c x) ≡ spinners n p
unfolding spinners
spinners-outside zero p c x h = refl
spinners-outside (suc n) p c x h = ground (arith, spinners-outside n p c x)

spinners-same :
    (n : ℕ) (p : ℕ → Place) (c : ℕ) (x : Place)
    → is_spinning x ≡ is_spinning (p c)
    → spinners n (update p c x) ≡ spinners n p
unfolding spinners
spinners-same zero p c x h = refl
spinners-same (suc n) p c x h = elim (Bool-cases (n == c)) [
  | inl e ↦
      let same : c ≡ n = ground arith in
      let h1 : is_spinning x ≡ is_spinning (p n) =
        subst (λ q. is_spinning x ≡ is_spinning (p q)) same h in
      rw (e, h1, spinners-same n p c x h) refl
  | inr e ↦ rw (e, spinners-same n p c x h) refl
]

spinners-more :
    (n : ℕ) (p : ℕ → Place) (c : ℕ) (x : Place)
    → c < n
    → is_spinning (p c) ≡ false
    → is_spinning x ≡ true
    → spinners n (update p c x) ≡ spinners n p + 1
unfolding spinners
spinners-more zero p c x h before after = absurd (omega arith)
spinners-more (suc n) p c x h before after = elim (Bool-cases (n == c)) [
  | inl e ↦
      let same : c ≡ n = ground arith in
      let b1 : is_spinning (p n) ≡ false = subst (λ q. is_spinning (p q) ≡ false) same before in
      rw (e, after, b1, spinners-outside n p c x (omega arith)) (omega arith)
  | inr e ↦ rw (e, spinners-more n p c x (ground arith) before after) (omega arith)
]

-- Nobody holds the lock, and its word is 1.
pub record Free (w : ℕ) (p : ℕ → Place) : Type 0 where
  pub nobody : (c : ℕ) → is_holding (p c) ≡ false
  pub word : w ≡ 1

-- The CPU `holder` holds the lock, and its word has been decremented by some of the spinning CPUs since.
pub record Held (n w : ℕ) (p : ℕ → Place) : Type 0 where
  pub holder : ℕ
  pub only : (c : ℕ) → is_holding (p c) ≡ (c == holder)
  pub tried : ℕ
  pub bound : tried ≤ spinners n p
  pub word : w ≡ (2 ^ 64 - tried) % 2 ^ 64

-- The preempt count of a CPU's task is one more than at the start while the CPU is at the lock.
pub record IsSpinlock (n : ℕ) (base : ℕ → ℕ) (s : Spinlock) : Type 0 where
  pub state : Free s.lock s.place ⊎ Held n s.lock s.place
  pub counts : (c : ℕ) → s.preempt_count c ≡ base c + (if is_outside (s.place c) then 0 else 1)

-- A CPU moves from a place to another, neither inside the lock nor in the loop.
module _ (n w : ℕ) (p : ℕ → Place) (cpu : ℕ) (x y : Place) (at : p cpu ≡ x) where
  Free-moved : is_holding y ≡ false → Free w p → Free w (update p cpu y)
  Free-moved h f = record { nobody = λ c. ground (arith, f.nobody c); word = f.word }

  Held-moved :
      is_holding x ≡ false
      → is_holding y ≡ false
      → is_spinning x ≡ is_spinning y
      → Held n w p
      → Held n w (update p cpu y)
  Held-moved hx hy same o =
      let before : is_holding (p cpu) ≡ false = ap is_holding at ∙ hx in
      record {
        holder = o.holder;
        only = λ c. ground (arith, o.only c, o.only cpu);
        tried = o.tried;
        bound = rw (spinners-same n p cpu y (sym same ∙ sym (ap is_spinning at))) o.bound;
        word = o.word;
      }

  State-moved :
      is_holding x ≡ false
      → is_holding y ≡ false
      → is_spinning x ≡ is_spinning y
      → Free w p ⊎ Held n w p
      → Free w (update p cpu y) ⊎ Held n w (update p cpu y)
  State-moved hx hy same (inl f) = inl (Free-moved hy f)
  State-moved hx hy same (inr o) = inr (Held-moved hx hy same o)

module _ (s : Spinlock) (cpu : ℕ) where
  pub try-free : s.lock ≡ 1 → spin_try s cpu ≡ go (record s { lock = 0 }) cpu holding
  unfolding spin_try
  try-free e = rw (e) refl

  try-held :
      (k : ℕ)
      → k < 2 ^ 63
      → s.lock ≡ (2 ^ 64 - k) % 2 ^ 64
      → spin_try s cpu ≡ go (record s { lock = (2 ^ 64 - (k + 1)) % 2 ^ 64 }) cpu spinning
  unfolding spin_try
  try-held k h e =
      let w : (s.lock + (2 ^ 64 - 1)) % 2 ^ 64 ≡ (2 ^ 64 - (k + 1)) % 2 ^ 64 = omega (arith, e) in
      let minus : ltb ((2 ^ 64 - (k + 1)) % 2 ^ 64) (2 ^ 63) ≡ false = ground arith in
      rw (w, minus) refl

module _ (n : ℕ) (small : n < 2 ^ 63) (base : ℕ → ℕ) (s : Spinlock) (o : IsSpinlock n base s)
    (cpu : ℕ) (below : cpu < n) where
  enter-IsSpinlock : s.place cpu ≡ outside → IsSpinlock n base (spin_enter s cpu)
  unfolding spin_enter
  enter-IsSpinlock at = record {
    state = State-moved n s.lock s.place cpu outside trying at refl refl refl o.state;
    counts = λ c. ground (arith, o.counts c, o.counts cpu);
  }

  leave-IsSpinlock : s.place cpu ≡ leaving → IsSpinlock n base (spin_leave s cpu)
  unfolding spin_leave
  leave-IsSpinlock at = record {
    state = State-moved n s.lock s.place cpu leaving outside at refl refl refl o.state;
    counts = λ c. ground (arith, o.counts c, o.counts cpu);
  }

  release-IsSpinlock : s.place cpu ≡ holding → IsSpinlock n base (spin_release s cpu)
  unfolding spin_release
  release-IsSpinlock at = record {
    state = elim o.state [
      | inl f ↦ ground (arith, f.nobody cpu, at)
      | inr h ↦ inl (record { nobody = λ c. ground (arith, h.only c, h.only cpu); word = refl })
    ];
    counts = λ c. ground (arith, o.counts c, o.counts cpu);
  }

  test-IsSpinlock : s.place cpu ≡ spinning → IsSpinlock n base (spin_test s cpu)
  unfolding spin_test
  test-IsSpinlock at = elim (Bool-cases ((s.lock == 0) || leb (2 ^ 63) s.lock)) [
    | inl stays ↦ rw stays o
    | inr moves ↦ elim o.state [
      | inl f ↦ rw moves (record {
        state = inl (Free-moved n s.lock s.place cpu spinning trying at refl f);
        counts = λ c. ground (arith, o.counts c, o.counts cpu);
      })
      | inr h ↦ absurd (ground (arith, h.word, h.bound, spinners-le n s.place))
    ]
  ]

  try-IsSpinlock : s.place cpu ≡ trying → IsSpinlock n base (spin_try s cpu)
  unfolding spin_try
  try-IsSpinlock at = elim o.state [
    | inl f ↦ rw (try-free s cpu f.word) (record {
      state = inr (record {
        holder = cpu;
        only = λ c. ground (arith, f.nobody c);
        tried = 0;
        bound = omega arith;
        word = refl;
      });
      counts = λ c. ground (arith, o.counts c, o.counts cpu);
    })
    | inr h ↦
        let k : h.tried ≤ n = omega (arith, h.bound, spinners-le n s.place) in
        rw (try-held s cpu h.tried (omega arith) h.word) (record {
          state = inr (record {
            holder = h.holder;
            only = λ c. ground (arith, h.only c, h.only cpu);
            tried = h.tried + 1;
            bound =
                rw (spinners-more n s.place cpu spinning below (ap is_spinning at) refl)
                  (omega (arith, h.bound));
            word = refl;
          });
          counts = λ c. ground (arith, o.counts c, o.counts cpu);
        })
  ]

module _ (n : ℕ) (small : n < 2 ^ 63) (s : Spinlock) where
  Step-IsSpinlock :
      (t u : Spinlock)
      → IsSpinlock n s.preempt_count t
      → Step n t u
      → IsSpinlock n s.preempt_count u
  Step-IsSpinlock t _ o (enters cpu below at) =
      enter-IsSpinlock n small s.preempt_count t o cpu below at
  Step-IsSpinlock t _ o (tries cpu below at) =
      try-IsSpinlock n small s.preempt_count t o cpu below at
  Step-IsSpinlock t _ o (tests cpu below at) =
      test-IsSpinlock n small s.preempt_count t o cpu below at
  Step-IsSpinlock t _ o (releases cpu below at) =
      release-IsSpinlock n small s.preempt_count t o cpu below at
  Step-IsSpinlock t _ o (leaves cpu below at) =
      leave-IsSpinlock n small s.preempt_count t o cpu below at

  start-IsSpinlock : IsSpinlock n s.preempt_count (spin_init (record s { place = λ cpu. outside }))
  unfolding spin_init
  start-IsSpinlock = record {
    state = inl (record { nobody = λ c. refl; word = refl });
    counts = λ c. omega arith;
  }

  pub Reach-IsSpinlock : (t : Spinlock) → Reach n s t → IsSpinlock n s.preempt_count t
  Reach-IsSpinlock _ start = start-IsSpinlock
  Reach-IsSpinlock u (later {t} r step) = Step-IsSpinlock t u (Reach-IsSpinlock t r) step
