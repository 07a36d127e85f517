-- ===== src/Slab/Bits.antt =====
-- Bitmaps of objects: how many bits are set, and what setting, flipping and searching do.
use Prim.Native.Nat.{bit_and, bit_or, bit_xor}
use s_os.Base.{
  ℕ, zero, suc, ◌+◌, ◌-◌, ◌/◌, ◌%◌, ◌^◌, ◌≡◌, ◌≤◌, ◌<◌, refl, ◌∙◌, sym, ap, subst, true, false,
  none, some, ◌==◌, ltb, ◌||◌, not, if◌then◌else◌, update, arith, Bool-cases, inl, inr,
}
use s_os.Base.Bits.{test_bit, test-or, test-xor, test-pow, test-mask, and_pow-zero}
use s_os.Memory.Bitmap.{used}
use s_os.Slab.{find_slot, full_word}

-- the number of set bits among the first `n`
unfoldable pub count_used : (ℕ → ℕ) → ℕ → ℕ
count_used bits zero = 0
count_used bits (suc n) = count_used bits n + (if used bits n then 1 else 0)

pub count_used-le : (bits : ℕ → ℕ) (n : ℕ) → count_used bits n ≤ n
unfolding count_used
count_used-le bits zero = omega arith
count_used-le bits (suc n) = ground (arith, count_used-le bits n)

pub count_used-same :
    (a b : ℕ → ℕ) (n : ℕ)
    → ((k : ℕ) → k < n → used a k ≡ used b k)
    → count_used a n ≡ count_used b n
unfolding count_used
count_used-same a b zero same = refl
count_used-same a b (suc n) same =
    rw (count_used-same a b n (λ k h. same k (omega arith)), same n (omega arith)) refl

-- Changing one clear bit to set adds one.
pub count_used-one :
    (a b : ℕ → ℕ) (n j : ℕ)
    → j < n
    → used a j ≡ false
    → ((k : ℕ) → used b k ≡ (used a k || (k == j)))
    → count_used b n ≡ count_used a n + 1
unfolding count_used
count_used-one a b zero j h clear step = absurd (omega arith)
count_used-one a b (suc n) j h clear step = elim (Bool-cases (n == j)) [
  | inl e ↦
      let same : count_used b n ≡ count_used a n =
        count_used-same b a n (λ k l. ground (arith, step k)) in
      ground (arith, same, step n)
  | inr e ↦ ground (arith, count_used-one a b n j (ground arith) clear step, step n)
]

pub count_used-all :
    (bits : ℕ → ℕ) (n : ℕ) → ((k : ℕ) → k < n → used bits k ≡ true) → count_used bits n ≡ n
unfolding count_used
count_used-all bits zero all = refl
count_used-all bits (suc n) all =
    ground (arith, count_used-all bits n (λ k h. all k (omega arith)), all n)

pub count_used-none :
    (bits : ℕ → ℕ) (n : ℕ) → ((k : ℕ) → k < n → used bits k ≡ false) → count_used bits n ≡ 0
unfolding count_used
count_used-none bits zero clear = refl
count_used-none bits (suc n) clear =
    ground (arith, count_used-none bits n (λ k h. clear k (omega arith)), clear n)

-- A clear bit is not counted.
pub count_used-lt : (bits : ℕ → ℕ) (n k : ℕ) → k < n → used bits k ≡ false → count_used bits n < n
unfolding count_used
count_used-lt bits zero k h clear = absurd (omega arith)
count_used-lt bits (suc n) k h clear = elim (Bool-cases (n == k)) [
  | inl e ↦ let same : n ≡ k = ground arith in ground (arith, count_used-le bits n)
  | inr e ↦ ground (arith, count_used-lt bits n k (ground arith) clear)
]

pub or-used :
    (bits : ℕ → ℕ) (j k : ℕ)
    → used (update bits (j / 64) (bit_or (bits (j / 64)) (2 ^ (j % 64)))) k
      ≡ (used bits k || (k == j))
unfolding used
or-used bits j k =
    ground (arith, test-or (bits (j / 64)) (2 ^ (j % 64)) (k % 64), test-pow (j % 64) (k % 64))

pub xor-used :
    (bits : ℕ → ℕ) (j k : ℕ)
    → used (update bits (j / 64) (bit_xor (bits (j / 64)) (2 ^ (j % 64)))) k
      ≡ (if k == j then not (used bits k) else used bits k)
unfolding used
xor-used bits j k =
    ground (arith, test-xor (bits (j / 64)) (2 ^ (j % 64)) (k % 64), test-pow (j % 64) (k % 64))

pub full-used : (bits : ℕ → ℕ) (k : ℕ) → bits (k / 64) ≡ full_word → used bits k ≡ true
unfolding used
full-used bits k e =
    let m : test_bit (2 ^ 64 - 1) (k % 64) ≡ true = test-mask 64 (k % 64) ∙ ground arith in rw e m

clear-used :
    (bits : ℕ → ℕ) (k : ℕ) → (bit_and (bits (k / 64)) (2 ^ (k % 64)) == 0) ≡ not (used bits k)
unfolding used
clear-used bits k = and_pow-zero (bits (k / 64)) (k % 64)

-- What a step of the search does.
data Step (n : ℕ) (bits : ℕ → ℕ) (count j : ℕ) : Type 0 where
  past : count ≤ j → find_slot (suc n) bits count j ≡ none → Step n bits count j
  skip :
      (bits (j / 64) == full_word) ≡ true
      → find_slot (suc n) bits count j ≡ find_slot n bits count (j + 64)
      → Step n bits count j
  here :
      j < count
      → used bits j ≡ false
      → find_slot (suc n) bits count j ≡ some j
      → Step n bits count j
  next :
      (bits (j / 64) == full_word) ≡ false
      → used bits j ≡ true
      → find_slot (suc n) bits count j ≡ find_slot n bits count (j + 1)
      → Step n bits count j

step : (n : ℕ) (bits : ℕ → ℕ) (count j : ℕ) → Step n bits count j
unfolding find_slot
step n bits count j = elim (Bool-cases (ltb j count)) [
  | inr h ↦ past (ground arith) (rw (h, find_slot) refl)
  | inl h ↦ elim (Bool-cases (bits (j / 64) == full_word)) [
    | inl f ↦ skip f (rw (h, f, find_slot) refl)
    | inr f ↦ elim (Bool-cases (used bits j)) [
      | inr clear ↦
          let b : (bit_and (bits (j / 64)) (2 ^ (j % 64)) == 0) ≡ true =
            clear-used bits j ∙ ap not clear in
          here (ground arith) clear (rw (h, f, b, find_slot) refl)
      | inl set ↦
          let b : (bit_and (bits (j / 64)) (2 ^ (j % 64)) == 0) ≡ false =
            clear-used bits j ∙ ap not set in
          next f set (rw (h, f, b, find_slot) refl)
    ]
  ]
]

find_slot-end : (bits : ℕ → ℕ) (count j : ℕ) → find_slot 0 bits count j ≡ none
unfolding find_slot
find_slot-end bits count j = refl

-- The slot that is found is in range and free.
pub find_slot-free :
    (n : ℕ) (bits : ℕ → ℕ) (count j i : ℕ)
    → find_slot n bits count j ≡ some i
    → (i < count) × (used bits i ≡ false)
find_slot-free zero bits count j i e =
    let no : none ≡ some i = sym (find_slot-end bits count j) ∙ e in absurd (ground arith)
find_slot-free (suc n) bits count j i e = elim (step n bits count j) [
  | past h s ↦ let no : none ≡ some i = sym s ∙ e in absurd (ground arith)
  | skip f s ↦ find_slot-free n bits count (j + 64) i (sym s ∙ e)
  | here h clear s ↦
      let same : some j ≡ some i = sym s ∙ e in
      let ji : j ≡ i = ground arith in (rw⁻¹ ji h, rw⁻¹ ji clear)
  | next f set s ↦ find_slot-free n bits count (j + 1) i (sym s ∙ e)
]

-- Behind a bit of a word that is not full comes a new word, or that one again.
same_word :
    (bits : ℕ → ℕ) (j : ℕ)
    → (bits (j / 64) == full_word) ≡ false
    → (((j + 1) % 64 == 0) || not (bits ((j + 1) / 64) == full_word)) ≡ true
same_word bits j f = elim (Bool-cases ((j + 1) % 64 == 0)) [
  | inl z ↦ rw z refl
  | inr z ↦ let e : (j + 1) / 64 ≡ j / 64 = ground arith in rw (z, e, f) refl
]

-- If none is found, every bit from the start on is set: the skip over a full word misses none, since a
-- search that has begun inside a word has found it not full.
pub find_slot-none :
    (n : ℕ) (bits : ℕ → ℕ) (count j : ℕ)
    → find_slot n bits count j ≡ none
    → count ≤ j + n
    → ((j % 64 == 0) || not (bits (j / 64) == full_word)) ≡ true
    → (k : ℕ) → j ≤ k
    → k < count
    → used bits k ≡ true
find_slot-none zero bits count j e enough whole k low high = absurd (omega arith)
find_slot-none (suc n) bits count j e enough whole k low high = elim (step n bits count j) [
  | past h s ↦ absurd (omega arith)
  | skip f s ↦
      let start : j % 64 ≡ 0 = ground arith in
      elim (Bool-cases (ltb k (j + 64))) [
        | inl near ↦
            let same : k / 64 ≡ j / 64 = ground arith in full-used bits k (rw same (ground arith))
        | inr far ↦
            find_slot-none n bits count (j + 64) (sym s ∙ e) (omega arith) (ground arith) k
              (ground arith) high
      ]
  | here h clear s ↦ let no : some j ≡ none = sym s ∙ e in absurd (ground arith)
  | next f set s ↦ elim (Bool-cases (k == j)) [
    | inl same ↦ let ek : j ≡ k = ground arith in subst (λ q. used bits q ≡ true) ek set
    | inr later ↦
        find_slot-none n bits count (j + 1) (sym s ∙ e) (omega arith) (same_word bits j f) k
          (ground arith) high
  ]
]
