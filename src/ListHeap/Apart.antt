-- ===== src/ListHeap/Apart.antt =====
-- Two rings of list.h in one memory: an operation on one leaves the other alone.
use s_os.Base.{◌≡◌, true, false, List, [], ◌∷◌, arith, subst, sym}
use s_os.ListHeap.{Ptr, Links, list_init, list_add_to_before, list_del}
use s_os.ListHeap.Chain.{has, has-last, ne_of_has, Chain-prev, Chain-frame}
use s_os.ListHeap.Ring.{IsRing}

-- no node is in both
abbrev pub Disjoint : List Ptr → List Ptr → Type 0
Disjoint xs ys = (p : Ptr) → has p xs ≡ true → has p ys ≡ false

pub prev-in :
    (h : Links) (head : Ptr) (xs : List Ptr)
    → IsRing h head xs
    → has (h.prev head) (head ∷ xs) ≡ true
prev-in h head xs r =
    subst (λ l. has l (head ∷ xs) ≡ true) (sym (Chain-prev h head xs head r.chain))
      (has-last head xs)

pub next-in :
    (h : Links) (head : Ptr) (xs : List Ptr)
    → IsRing h head xs
    → has (h.next head) (head ∷ xs) ≡ true
next-in h head [] r = ground arith
next-in h head (x ∷ xs) r = ground arith

module _ (h : Links) (head : Ptr) (xs : List Ptr) (r : IsRing h head xs) where
  -- a ring survives writes to nodes that are not its own
  pub IsRing-frame :
      (g : Links)
      → ((p : Ptr) → has p (head ∷ xs) ≡ true → g.next p ≡ h.next p)
      → ((p : Ptr) → has p (head ∷ xs) ≡ true → g.prev p ≡ h.prev p)
      → IsRing g head xs
  IsRing-frame g n p = record {
    chain = Chain-frame h g head xs head r.chain n p;
    distinct = r.distinct;
  }

  pub init-apart : (n : Ptr) → has n (head ∷ xs) ≡ false → IsRing (list_init h n) head xs
  unfolding list_init
  init-apart n out =
      IsRing-frame (list_init h n) (λ p m. ground (arith, ne_of_has p n (head ∷ xs) m out))
        (λ p m. ground (arith, ne_of_has p n (head ∷ xs) m out))

  pub before-apart :
      (e n : Ptr)
      → has e (head ∷ xs) ≡ false
      → has n (head ∷ xs) ≡ false
      → has (h.prev e) (head ∷ xs) ≡ false
      → IsRing (list_add_to_before h e n) head xs
  unfolding list_add_to_before
  before-apart e n eo nout po =
      IsRing-frame (list_add_to_before h e n)
        (λ p m. ground (
          arith,
          ne_of_has p n (head ∷ xs) m nout,
          ne_of_has p (h.prev e) (head ∷ xs) m po,
          ne_of_has p e (head ∷ xs) m eo,
        ))
        (λ p m. ground (arith, ne_of_has p n (head ∷ xs) m nout, ne_of_has p e (head ∷ xs) m eo))

  pub del-apart :
      (e : Ptr)
      → has (h.next e) (head ∷ xs) ≡ false
      → has (h.prev e) (head ∷ xs) ≡ false
      → has e (head ∷ xs) ≡ false
      → IsRing (list_del h e) head xs
  unfolding list_del
  del-apart e nout po eo =
      IsRing-frame (list_del h e)
        (λ p m. ground (
          arith,
          ne_of_has p (h.next e) (head ∷ xs) m nout,
          ne_of_has p (h.prev e) (head ∷ xs) m po,
          ne_of_has p e (head ∷ xs) m eo,
        ))
        (λ p m. ground (
          arith,
          ne_of_has p (h.next e) (head ∷ xs) m nout,
          ne_of_has p (h.prev e) (head ∷ xs) m po,
          ne_of_has p e (head ∷ xs) m eo,
        ))
