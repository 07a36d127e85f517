-- ===== src/ListHeap/Ordered.antt =====
-- Rings that are kept in the order of a key: the loop that add_timer (kernel/timer/timer.c) and
-- enqueue_task (kernel/sched/scheduler.c) run to find a place, and the list that results.
use mathlib.Core.List.{append-nil, Perm}
use mathlib.Core.List.Perm
use s_os.Base.{
  ℕ, zero, suc, ◌<◌, ◌≤◌, ◌≡◌, refl, true, sym, subst, ap, false, List, [], ◌∷◌, ◌++◌, arith, ltb,
  if◌then◌else◌, Bool-cases, ◌==◌, ◌||◌, inl, inr, Option, none, some, length, All, All-map,
}
use s_os.ListHeap.{Ptr, Links, list_add_to_before, list_next, list_is_empty}
use s_os.ListHeap.Chain.{has, Chain, has-append, has-last, last, Chain-prev, Chain-split}
use s_os.ListHeap.Ring.{IsRing, before_head-IsRing, before-IsRing, list_next_lem, list_is_empty-eq}

-- `while (tmp->key < k) tmp = list_next(tmp)`; `none` means that the fuel ran out.
unfoldable pub walk : ℕ → Links → (Ptr → ℕ) → ℕ → Ptr → Option Ptr
walk zero h key k tmp = none
walk (suc f) h key k tmp =
    let rest = walk f h key k (list_next h tmp) in if ltb (key tmp) k then rest else some tmp

-- The search as a whole: an empty list is not walked, and `tmp` is then the head itself.
unfoldable pub place : ℕ → Links → (Ptr → ℕ) → ℕ → Ptr → Option Ptr
place f h key k head =
    let tmp = list_next h head in if list_is_empty h head then some tmp else walk f h key k tmp

-- The specification: `n` goes in front of the first element whose key is not smaller.
unfoldable pub insert_by : (Ptr → ℕ) → Ptr → List Ptr → List Ptr
insert_by key n [] = n ∷ []
insert_by key n (x ∷ xs) = if ltb (key x) (key n) then x ∷ insert_by key n xs else n ∷ (x ∷ xs)

abbrev pub IsSortedBy : (Ptr → ℕ) → List Ptr → Type 0
IsSortedBy key [] = Unit {0}
IsSortedBy key (x ∷ xs) = All (λ y. key x ≤ key y) xs × IsSortedBy key xs

abbrev pub first : List Ptr → Ptr → Ptr
first [] d = d
first (x ∷ xs) d = x

module _ (h : Links) (key : Ptr → ℕ) (n head : Ptr) (stop : key n ≤ key head) where
  -- The loop stops in front of the part that `insert_by` puts behind `n`.
  pub walk-split :
      (f : ℕ) (a : Ptr) (xs : List Ptr)
      → Chain h a xs head
      → length xs < f
      → (us : List Ptr) × (vs : List Ptr) × (walk f h key (key n) (h.next a) ≡ some (first vs head))
        × (xs ≡ us ++ vs)
        × (insert_by key n xs ≡ us ++ (n ∷ vs))
  unfolding walk insert_by
  walk-split zero a xs c fuel = absurd (omega arith)
  walk-split (suc f) a [] c fuel = ([], [], ground arith, refl, refl)
  walk-split (suc f) a (x ∷ xs) c fuel = elim (Bool-cases (ltb (key x) (key n))) [
    | inl lt ↦
        let (us, vs, e, s, i) = walk-split f x xs c.2 (omega arith) in
        (x ∷ us, vs, ground (arith, list_next_lem h x), ap (λ l. x ∷ l) s, rw (lt, i))
    | inr ge ↦ ([], x ∷ xs, ground arith, refl, rw ge)
  ]

-- The search finds where `insert_by` puts `n`, if the head's key is not below that of `n`.
pub place-split :
    (h : Links) (key : Ptr → ℕ) (n head : Ptr) (f : ℕ) (xs : List Ptr)
    → key n ≤ key head
    → IsRing h head xs
    → length xs < f
    → (us : List Ptr) × (vs : List Ptr) × (place f h key (key n) head ≡ some (first vs head))
      × (xs ≡ us ++ vs)
      × (insert_by key n xs ≡ us ++ (n ∷ vs))
unfolding place insert_by
place-split h key n head f [] stop r fuel =
    let e = (list_is_empty-eq h head [] r).0 refl in
    ([], [], rw (list_next_lem h head, e, r.chain.0), refl, refl)
place-split h key n head f (x ∷ xs) stop r fuel =
    let e = (list_is_empty-eq h head (x ∷ xs) r).1 cc in
    let (us, vs, w, s, i) = walk-split h key n head stop f head (x ∷ xs) r.chain fuel in
    (us, vs, rw (list_next_lem h head, e, w), s, i)

-- Linking `n` in front of what the loop found gives the ring of the specification.
pub insert-IsRing :
    (h : Links) (head n : Ptr) (us vs : List Ptr)
    → IsRing h head (us ++ vs)
    → has n (head ∷ (us ++ vs)) ≡ false
    → IsRing (list_add_to_before h (first vs head) n) head (us ++ (n ∷ vs))
insert-IsRing h head n us [] r new =
    let e : (us ++ []) ≡ us = append-nil us in
    before_head-IsRing h head n us (subst (λ l. IsRing h head l) e r)
      (subst (λ l. has n (head ∷ l) ≡ false) e new)
insert-IsRing h head n us (v ∷ vs) r new = before-IsRing h head v n us vs r new

pub All-insert_by :
    (P : Ptr → Type 0) (key : Ptr → ℕ) (n : Ptr) (xs : List Ptr)
    → P n
    → All P xs
    → All P (insert_by key n xs)
unfolding insert_by
All-insert_by P key n [] p a = (p, tt)
All-insert_by P key n (x ∷ xs) p a = elim (Bool-cases (ltb (key x) (key n))) [
  | inl lt ↦ rw lt (a.0, All-insert_by P key n xs p a.1)
  | inr ge ↦ rw ge (p, a)
]

pub insert_by-IsSortedBy :
    (key : Ptr → ℕ) (n : Ptr) (xs : List Ptr)
    → IsSortedBy key xs
    → IsSortedBy key (insert_by key n xs)
unfolding insert_by
insert_by-IsSortedBy key n [] s = (tt, tt)
insert_by-IsSortedBy key n (x ∷ xs) s = elim (Bool-cases (ltb (key x) (key n))) [
  | inl lt ↦ rw lt (
    All-insert_by (λ y. key x ≤ key y) key n xs (ground arith) s.0,
    insert_by-IsSortedBy key n xs s.1,
  )
  | inr ge ↦ rw ge (
    (ground arith, All-map (λ y. key x ≤ key y) (λ y. key n ≤ key y) xs (λ y l. ground arith) s.0),
    s,
  )
]

pub insert_by-perm : (key : Ptr → ℕ) (n : Ptr) (xs : List Ptr) → Perm (insert_by key n xs) (n ∷ xs)
unfolding insert_by
insert_by-perm key n [] = Perm.refl (n ∷ [])
insert_by-perm key n (x ∷ xs) = elim (Bool-cases (ltb (key x) (key n))) [
  | inl lt ↦ rw lt (Perm.trans (Perm.cons x (insert_by-perm key n xs)) (Perm.swap n x xs))
  | inr ge ↦ rw ge (Perm.refl (n ∷ (x ∷ xs)))
]

pub length-insert_by :
    (key : Ptr → ℕ) (n : Ptr) (xs : List Ptr) → length (insert_by key n xs) ≡ suc (length xs)
unfolding insert_by
length-insert_by key n [] = refl
length-insert_by key n (x ∷ xs) = ground (arith, length-insert_by key n xs)

pub has-insert_by :
    (key : Ptr → ℕ) (n p : Ptr) (xs : List Ptr)
    → has p (insert_by key n xs) ≡ ((p == n) || has p xs)
unfolding insert_by
has-insert_by key n p [] = refl
has-insert_by key n p (x ∷ xs) = ground (arith, has-insert_by key n p xs)

pub first-in : (head : Ptr) (us vs : List Ptr) → has (first vs head) (head ∷ (us ++ vs)) ≡ true
first-in head us [] = ground arith
first-in head us (v ∷ vs) = ground (arith, has-append v us (v ∷ vs))

pub prev_first-in :
    (h : Links) (head : Ptr) (us vs : List Ptr)
    → IsRing h head (us ++ vs)
    → has (h.prev (first vs head)) (head ∷ (us ++ vs)) ≡ true
prev_first-in h head us [] r =
    let e = Chain-prev h head (us ++ []) head r.chain in
    subst (λ p. has p (head ∷ (us ++ [])) ≡ true) (sym e) (has-last head (us ++ []))
prev_first-in h head us (v ∷ vs) r =
    let c = Chain-split h head us v vs head r.chain in
    let e = Chain-prev h head us v c.0 in
    subst (λ p. has p (head ∷ (us ++ (v ∷ vs))) ≡ true) (sym e)
      (ground (arith, has-last head us, has-append (last head us) us (v ∷ vs)))
