-- ===== src/ListHeap/Ring.antt =====
-- A circular list of list.h: the head, and the nodes behind it in order. What each operation of
-- list.h does to the whole circle.
use s_os.Base.{
  ◌≡◌, ◌≢◌, refl, sym, subst, true, false, List, [], ◌∷◌, ◌++◌, arith, ◌==◌, Bool-cases, inl, inr,
}
use mathlib.Core.List.{append-nil, append_assoc}
use s_os.ListHeap.{
  Ptr, Links, list_init, list_add_to_before, list_add_to_behind, list_del, list_is_empty, list_next,
  list_prev,
}
use s_os.ListHeap.Chain.{
  has, Distinct, Chain, last, has-append, has-last, ne_of_has, Chain-prev, Chain-frame, Chain-split,
  Chain-join, Distinct-split, Distinct-front, Distinct-insert, Distinct-remove,
}

pub record IsRing (h : Links) (head : Ptr) (xs : List Ptr) : Type 0 where
  pub chain : Chain h head xs head
  pub distinct : Distinct (head ∷ xs)

-- `list_next` and `list_prev` are the fields, also at NULL.
pub list_next_lem : (h : Links) (p : Ptr) → list_next h p ≡ h.next p
unfolding list_next
list_next_lem h p = ground arith

pub list_prev_lem : (h : Links) (p : Ptr) → list_prev h p ≡ h.prev p
unfolding list_prev
list_prev_lem h p = ground arith

pub list_init-IsRing : (h : Links) (p : Ptr) → IsRing (list_init h p) p []
unfolding list_init
list_init-IsRing h p = ground arith

-- `list_is_empty` answers 1 exactly for the ring without nodes.
pub list_is_empty-eq :
    (h : Links) (head : Ptr) (xs : List Ptr)
    → IsRing h head xs
    → (xs ≡ [] → list_is_empty h head ≡ true) × (xs ≢ [] → list_is_empty h head ≡ false)
unfolding list_is_empty
list_is_empty-eq h head [] r = ground arith
list_is_empty-eq h head (x ∷ xs) r = ground arith

module _ (h : Links) (e n : Ptr) where
  -- The node `n` comes between the last node of the chain and its end `e`.
  before-Chain :
      (a : Ptr) (xs : List Ptr)
      → Chain h a xs e
      → Distinct (a ∷ xs)
      → has e xs ≡ false
      → has n (a ∷ xs) ≡ false
      → n ≢ e
      → (l : Ptr) → l ≡ last a xs
      → h.prev e ≡ l
      → Chain (list_add_to_before h e n) a (xs ++ (n ∷ [])) e
  unfolding list_add_to_before
  before-Chain a [] c d out new ne l el pl = ground arith
  before-Chain a (x ∷ xs) c d out new ne l el pl =
      let inside = ne_of_has l a (x ∷ xs) (ground (arith, has-last x xs)) d.0 in
      (
        ground arith,
        ground arith,
        before-Chain x xs c.2 d.1 (ground arith) (ground arith) ne l el pl,
      )

  -- A chain from `e` on is not touched.
  before-frame :
      (b : Ptr) (ys : List Ptr)
      → Chain h e ys b
      → has (h.prev e) (e ∷ ys) ≡ false
      → has n (e ∷ ys) ≡ false
      → has e ys ≡ false
      → n ≢ b
      → e ≢ b
      → Chain (list_add_to_before h e n) e ys b
  unfolding list_add_to_before
  before-frame b ys c l new out nb eb =
      Chain-frame h (list_add_to_before h e n) e ys b c
        (λ p m. ground (arith, ne_of_has p (h.prev e) (e ∷ ys) m l, ne_of_has p n (e ∷ ys) m new))
        (λ p m. elim (Bool-cases (p == b)) [
          | inl q ↦ ground arith
          | inr q ↦ ground (arith, ne_of_has p e ys, ne_of_has p n ys)
        ])

-- `list_add_to_before` with the head as its entry appends the node at the end.
pub before_head-IsRing :
    (h : Links) (head n : Ptr) (xs : List Ptr)
    → IsRing h head xs
    → has n (head ∷ xs) ≡ false
    → IsRing (list_add_to_before h head n) head (xs ++ (n ∷ []))
before_head-IsRing h head n xs r new = record {
  chain =
      before-Chain h head n head xs r.chain r.distinct r.distinct.0 new (ground arith)
        (last head xs) refl (Chain-prev h head xs head r.chain);
  distinct =
      Distinct-insert (head ∷ xs) n [] (rw append-nil r.distinct)
        (ground (arith, has-append n xs []));
}

-- `list_add_to_before` puts the node in front of its entry.
pub before-IsRing :
    (h : Links) (head e n : Ptr) (xs ys : List Ptr)
    → IsRing h head (xs ++ (e ∷ ys))
    → has n (head ∷ (xs ++ (e ∷ ys))) ≡ false
    → IsRing (list_add_to_before h e n) head (xs ++ (n ∷ (e ∷ ys)))
before-IsRing h head e n xs ys r new =
    let c = Chain-split h head xs e ys head r.chain in
    let d = Distinct-split (head ∷ xs) e ys r.distinct in
    let out = has-append n xs (e ∷ ys) in
    let pl = Chain-prev h head xs e c.0 in
    let before =
      before-Chain h e n head xs c.0 d.0 (ground arith) (ground arith) (ground arith) (last head xs)
        refl pl in
    let after =
      before-frame h e n head ys c.1
        (subst (λ l. has l (e ∷ ys) ≡ false) (sym pl)
          (Distinct-front (head ∷ xs) (e ∷ ys) (last head xs) r.distinct (has-last head xs)))
        (ground arith) (ground arith) (ground arith) (ground arith) in
    record {
      chain =
          subst (λ l. Chain (list_add_to_before h e n) head l head)
            (append_assoc xs (n ∷ []) (e ∷ ys))
            (Chain-join (list_add_to_before h e n) head (xs ++ (n ∷ [])) e ys head before after);
      distinct = Distinct-insert (head ∷ xs) n (e ∷ ys) r.distinct new;
    }

-- Rings see no more of the memory than its fields.
pub IsRing-same :
    (h g : Links) (head : Ptr) (xs : List Ptr)
    → IsRing h head xs
    → ((p : Ptr) → g.next p ≡ h.next p)
    → ((p : Ptr) → g.prev p ≡ h.prev p)
    → IsRing g head xs
IsRing-same h g head xs r n p = record {
  chain = Chain-frame h g head xs head r.chain (λ q m. n q) (λ q m. p q);
  distinct = r.distinct;
}

-- Behind an entry is in front of the entry's successor.
behind_next :
    (h : Links) (e n : Ptr)
    → h.prev (h.next e) ≡ e
    → n ≢ h.next e
    → n ≢ e
    → (p : Ptr) → (list_add_to_behind h e n).next p ≡ (list_add_to_before h (h.next e) n).next p
unfolding list_add_to_behind list_add_to_before
behind_next h e n b ne nf p = ground arith

behind_prev :
    (h : Links) (e n : Ptr)
    → h.prev (h.next e) ≡ e
    → n ≢ h.next e
    → n ≢ e
    → (p : Ptr) → (list_add_to_behind h e n).prev p ≡ (list_add_to_before h (h.next e) n).prev p
unfolding list_add_to_behind list_add_to_before
behind_prev h e n b ne nf p = ground arith

-- `list_add_to_behind` puts the node behind its entry, here the head.
behind_head-IsRing :
    (h : Links) (head n : Ptr) (xs : List Ptr)
    → IsRing h head xs
    → has n (head ∷ xs) ≡ false
    → IsRing (list_add_to_behind h head n) head (n ∷ xs)
behind_head-IsRing h head n [] r new =
    IsRing-same (list_add_to_before h (h.next head) n) (list_add_to_behind h head n) head (n ∷ [])
      (rw r.chain.0 (before_head-IsRing h head n [] r new))
      (behind_next h head n (ground arith) (ground arith) (ground arith))
      (behind_prev h head n (ground arith) (ground arith) (ground arith))
behind_head-IsRing h head n (x ∷ xs) r new =
    IsRing-same (list_add_to_before h (h.next head) n) (list_add_to_behind h head n) head
      (n ∷ (x ∷ xs)) (rw r.chain.0 (before-IsRing h head x n [] xs r new))
      (behind_next h head n (ground arith) (ground arith) (ground arith))
      (behind_prev h head n (ground arith) (ground arith) (ground arith))

-- `list_del` takes the node out of the chain.
del-Chain :
    (h : Links) (a : Ptr) (xs : List Ptr) (e : Ptr) (ys : List Ptr) (b : Ptr)
    → Chain h a xs e
    → Chain h e ys b
    → Distinct (a ∷ (xs ++ (e ∷ ys)))
    → has b (xs ++ (e ∷ ys)) ≡ false
    → (f : Ptr) → h.next e ≡ f
    → (l : Ptr) → h.prev e ≡ l
    → l ≡ last a xs
    → has f (b ∷ ys) ≡ true
    → Chain (list_del h e) a (xs ++ ys) b
unfolding list_del
del-Chain h a [] e [] b c d di out f ef l el ml mf = ground arith
del-Chain h a [] e (y ∷ ys) b c d di out f ef l el ml mf = (
  ground arith,
  ground arith,
  Chain-frame h (list_del h e) y ys b d.2 (λ p m. ground (arith, ne_of_has p a (y ∷ ys) m))
      (λ p m. ground (arith, ne_of_has p y ys)),
)
del-Chain h a (x ∷ xs) e ys b c d di out f ef l el ml mf =
    let apart = has-append x xs (e ∷ ys) in
    let apart' = has-append a xs (e ∷ ys) in
    let inside = has-last x xs in
    (
      ground (arith, ne_of_has l a (x ∷ xs)),
      ground (arith, ne_of_has f x (b ∷ ys) mf),
      del-Chain h x xs e ys b c.2 d di.1 (ground arith) f ef l el ml mf,
    )

pub first_in :
    (h : Links) (e : Ptr) (ys : List Ptr) (b : Ptr)
    → Chain h e ys b
    → has (h.next e) (b ∷ ys) ≡ true
first_in h e [] b c = ground arith
first_in h e (y ∷ ys) b c = ground arith

-- `list_del` takes a node of the ring out and leaves the other nodes in their order.
pub del-IsRing :
    (h : Links) (head e : Ptr) (xs ys : List Ptr)
    → IsRing h head (xs ++ (e ∷ ys))
    → IsRing (list_del h e) head (xs ++ ys)
del-IsRing h head e xs ys r =
    let c = Chain-split h head xs e ys head r.chain in
    record {
      chain =
          del-Chain h head xs e ys head c.0 c.1 r.distinct r.distinct.0 (h.next e) refl (h.prev e)
            refl (Chain-prev h head xs e c.0) (first_in h e ys head c.1);
      distinct = Distinct-remove (head ∷ xs) e ys r.distinct;
    }

-- The node that `list_del` took out keeps its own fields.
pub del_keeps :
    (h : Links) (e : Ptr)
    → h.next e ≢ e
    → h.prev e ≢ e
    → ((list_del h e).next e ≡ h.next e) × ((list_del h e).prev e ≡ h.prev e)
unfolding list_del
del_keeps h e n p = ground arith
