-- ===== src/ListHeap.antt =====
-- Doubly linked circular lists, kernel/include/list.h.
--
-- A `struct List` is identified by its address. The two fields of all nodes form the memory
-- `Links`; memory is total, since kernel code never checks a dereference.
pub mod Apart
pub mod Chain
pub mod Ordered
pub mod Ring
use s_os.Base.{ℕ, ◌==◌, update, if◌then◌else◌, ◌&&◌, Bool}

abbrev pub Ptr : Type 0
Ptr = ℕ

-- the fields `prev` and `next` of the nodes
pub record Links : Type 0 where
  pub prev : Ptr → Ptr
  pub next : Ptr → Ptr

-- `p->prev = v`
unfoldable pub set_prev : Links → Ptr → Ptr → Links
set_prev h p v = record h { prev = update h.prev p v }

-- `p->next = v`
unfoldable pub set_next : Links → Ptr → Ptr → Links
set_next h p v = record h { next = update h.next p v }

unfoldable pub list_init : Links → Ptr → Links
unfolding set_prev set_next
list_init h list = set_next (set_prev h list list) list list

-- The parameter that the source calls `new`.
unfoldable pub list_add_to_behind : Links → Ptr → Ptr → Links
unfolding set_prev set_next
list_add_to_behind h entry node =
    let h1 = set_prev h node entry in
    let h2 = set_next h1 node (h1.next entry) in
    let h3 = set_prev h2 (h2.next node) node in set_next h3 entry node

unfoldable pub list_add_to_before : Links → Ptr → Ptr → Links
unfolding set_prev set_next
list_add_to_before h entry node =
    let h1 = set_next h node entry in
    let h2 = set_prev h1 node (h1.prev entry) in
    let h3 = set_next h2 (h2.prev node) node in set_prev h3 entry node

-- The fields of `entry` itself are left as they were.
unfoldable pub list_del : Links → Ptr → Links
unfolding set_prev set_next
list_del h entry =
    let h1 = set_prev h (h.next entry) (h.prev entry) in set_next h1 (h1.prev entry) (h1.next entry)

unfoldable pub list_is_empty : Links → Ptr → Bool
list_is_empty h entry = (entry == h.next entry) && (entry == h.prev entry)

-- `NULL` is address 0, so both branches return the field.
unfoldable pub list_prev : Links → Ptr → Ptr
list_prev h entry = if h.prev entry == 0 then 0 else h.prev entry

unfoldable pub list_next : Links → Ptr → Ptr
list_next h entry = if h.next entry == 0 then 0 else h.next entry
