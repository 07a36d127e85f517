-- ===== src/ListHeap/Chain.antt =====
-- Chains of nodes of list.h that are linked both ways, and what the list operations do to them.
use s_os.Base.{
  ◌≡◌, ◌≢◌, refl, Bool, true, false, ◌||◌, List, [], ◌∷◌, ◌++◌, arith, ◌==◌, Bool-cases, inl, inr,
}
use s_os.ListHeap.{Ptr, Links}

abbrev pub has : Ptr → List Ptr → Bool
has p [] = false
has p (x ∷ xs) = (p == x) || has p xs

-- no node twice
abbrev pub Distinct : List Ptr → Type 0
Distinct [] = Unit {0}
Distinct (x ∷ xs) = (has x xs ≡ false) × Distinct xs

-- `a` leads through `xs` to `b` by `next`, and back by `prev`
abbrev pub Chain : Links → Ptr → List Ptr → Ptr → Type 0
Chain h a [] b = (h.next a ≡ b) × (h.prev b ≡ a)
Chain h a (x ∷ xs) b = (h.next a ≡ x) × (h.prev x ≡ a) × Chain h x xs b

abbrev pub last : Ptr → List Ptr → Ptr
last a [] = a
last a (x ∷ xs) = last x xs

pub has-append : (p : Ptr) (xs ys : List Ptr) → has p (xs ++ ys) ≡ (has p xs || has p ys)
has-append p [] ys = refl
has-append p (x ∷ xs) ys = ground (arith, has-append p xs ys)

pub has-last : (a : Ptr) (xs : List Ptr) → has (last a xs) (a ∷ xs) ≡ true
has-last a [] = ground arith
has-last a (x ∷ xs) = ground (arith, has-last x xs)

pub ne_of_has : (p q : Ptr) (xs : List Ptr) → has p xs ≡ true → has q xs ≡ false → p ≢ q
ne_of_has p q [] h k = λ e. cc
ne_of_has p q (x ∷ xs) h k = λ e. ground (arith, ne_of_has p q xs)

pub Chain-prev :
    (h : Links) (a : Ptr) (xs : List Ptr) (b : Ptr) → Chain h a xs b → h.prev b ≡ last a xs
Chain-prev h a [] b c = c.1
Chain-prev h a (x ∷ xs) b c = Chain-prev h x xs b c.2

-- a chain survives every change that spares the fields that it uses
pub Chain-frame :
    (h g : Links) (a : Ptr) (xs : List Ptr) (b : Ptr)
    → Chain h a xs b
    → ((p : Ptr) → has p (a ∷ xs) ≡ true → g.next p ≡ h.next p)
    → ((p : Ptr) → has p (b ∷ xs) ≡ true → g.prev p ≡ h.prev p)
    → Chain g a xs b
Chain-frame h g a [] b c n p = ground (arith, n a, p b)
Chain-frame h g a (x ∷ xs) b c n p = (
  ground (arith, n a),
  ground (arith, p x),
  Chain-frame h g x xs b c.2 (λ q m. n q (ground arith)) (λ q m. p q (ground arith)),
)

pub Chain-split :
    (h : Links) (a : Ptr) (xs : List Ptr) (e : Ptr) (ys : List Ptr) (b : Ptr)
    → Chain h a (xs ++ (e ∷ ys)) b
    → Chain h a xs e × Chain h e ys b
Chain-split h a [] e ys b c = ground arith
Chain-split h a (x ∷ xs) e ys b c = ground (arith, Chain-split h x xs e ys b c.2)

pub Chain-join :
    (h : Links) (a : Ptr) (xs : List Ptr) (e : Ptr) (ys : List Ptr) (b : Ptr)
    → Chain h a xs e
    → Chain h e ys b
    → Chain h a (xs ++ (e ∷ ys)) b
Chain-join h a [] e ys b c d = ground arith
Chain-join h a (x ∷ xs) e ys b c d = (c.0, c.1, Chain-join h x xs e ys b c.2 d)

pub Distinct-split :
    (xs : List Ptr) (e : Ptr) (ys : List Ptr)
    → Distinct (xs ++ (e ∷ ys))
    → Distinct xs × Distinct (e ∷ ys) × (has e xs ≡ false)
Distinct-split [] e ys d = ground arith
Distinct-split (x ∷ xs) e ys d =
    ground (arith, has-append x xs (e ∷ ys), Distinct-split xs e ys d.1)

-- what stands in front of `e ∷ ys` is not in it
pub Distinct-front :
    (xs : List Ptr) (ys : List Ptr) (p : Ptr)
    → Distinct (xs ++ ys)
    → has p xs ≡ true
    → has p ys ≡ false
Distinct-front [] ys p d m = absurd (ground arith)
Distinct-front (x ∷ xs) ys p d m = elim (Bool-cases (p == x)) [
  | inl q ↦ ground (arith, has-append x xs ys)
  | inr q ↦ Distinct-front xs ys p d.1 (ground arith)
]

pub Distinct-insert :
    (xs : List Ptr) (n : Ptr) (ys : List Ptr)
    → Distinct (xs ++ ys)
    → has n (xs ++ ys) ≡ false
    → Distinct (xs ++ (n ∷ ys))
Distinct-insert [] n ys d new = ground arith
Distinct-insert (x ∷ xs) n ys d new = (
  ground (arith, has-append x xs (n ∷ ys), has-append x xs ys),
  Distinct-insert xs n ys d.1 (ground arith),
)

pub Distinct-remove :
    (xs : List Ptr) (n : Ptr) (ys : List Ptr) → Distinct (xs ++ (n ∷ ys)) → Distinct (xs ++ ys)
Distinct-remove [] n ys d = d.1
Distinct-remove (x ∷ xs) n ys d =
    (ground (arith, has-append x xs (n ∷ ys), has-append x xs ys), Distinct-remove xs n ys d.1)
