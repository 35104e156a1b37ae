-- ===== src/LinkedList.antt =====
-- The doubly linked list of generic/itcl.h and generic/itclUtil.c, with its pool of list elements. A
-- pointer is a number, and NULL is `none`; memory is a function. `none` as a result stands for a
-- failed assertion or a pointer to no element that is followed.
pub mod Adding
pub mod Links
pub mod Contents
pub mod Pool
pub mod Insertion
pub mod Additions
pub mod Deletion
pub mod Disposal
use itcl.Prelude.{
  ℕ, zero, suc, ◌+◌, ◌-◌, Bool, true, false, Option, none, some, ◌==◌, ltb, if◌then◌else◌, ◌>>=◌,
}

abbrev pub Ptr : Type 0
Ptr = ℕ

abbrev pub ListId : Type 0
ListId = ℕ

-- `Itcl_ListElem`
pub record ListElem : Type 0 where
  pub owner : ListId
  pub value : ℕ
  pub prev : Option Ptr
  pub next : Option Ptr

-- `Itcl_List`; `valid` is `validate == ITCL_VALID_LIST`.
pub record ItclList : Type 0 where
  pub valid : Bool
  pub num : ℕ
  pub head : Option Ptr
  pub tail : Option Ptr

abbrev pub Elems : Type 0
Elems = Ptr → Option ListElem

-- The elements, the lists, and the static variables `listPool` and `listPoolLen`.
pub record Store : Type 0 where
  pub elems : Elems
  pub lists : ListId → ItclList
  pub pool : Option Ptr
  pub pool_len : ℕ

-- ITCL_LIST_POOL_SIZE
abbrev pub pool_size : ℕ
pool_size = 200

abbrev pub put : Ptr → Option ListElem → Elems → Elems
put p c e = λ q. if q == p then c else e q

-- A write to the fields of an element that is there.
unfoldable pub write_at : Ptr → (ListElem → ListElem) → Elems → Option ListElem → Option Elems
write_at p f e none = none
write_at p f e (some c) = some (put p (some (f c)) e)

-- `if (p) p->next = n`
unfoldable pub write_next : Option Ptr → Option Ptr → Elems → Option Elems
unfolding write_at
write_next none n e = some e
write_next (some p) n e = write_at p (λ c. record c { next = n }) e (e p)

-- `if (p) p->prev = n`
unfoldable pub write_prev : Option Ptr → Option Ptr → Elems → Option Elems
unfolding write_at
write_prev none n e = some e
write_prev (some p) n e = write_at p (λ c. record c { prev = n }) e (e p)

abbrev pub set_list : ListId → ItclList → Store → Store
set_list l v s = record s { lists = λ m. if m == l then v else s.lists m }

abbrev pub set_elems : Elems → Store → Store
set_elems e s = record s { elems = e }

unfoldable pub init_list : ListId → Store → Store
init_list l = set_list l (record { valid = true; num = 0; head = none; tail = none })

-- A new element, and where it is.
pub record NewElem : Type 0 where
  pub elem : Ptr
  pub store : Store

abbrev new_elem : ListId → ListElem
new_elem l = record { owner = l; value = 0; prev = none; next = none }

-- The first element of the pool, which has an element.
unfoldable pub from_pool : ListId → Store → Ptr → Option ListElem → Option NewElem
from_pool l s p none = none
from_pool l s p (some c) = some (record {
  elem = p;
  store = record s {
    elems = put p (some (new_elem l)) s.elems;
    pool = c.next;
    pool_len = s.pool_len - 1;
  };
})

unfoldable pub take_pool : ListId → Store → Option Ptr → Option NewElem
unfolding from_pool
take_pool l s none = none
take_pool l s (some p) = from_pool l s p (s.elems p)

-- Itcl_CreateListElem, where ckalloc would return `fresh`.
unfoldable pub create_list_elem : Ptr → ListId → Store → Option NewElem
unfolding take_pool
create_list_elem fresh l s =
    if ltb 0 s.pool_len
    then take_pool l s s.pool
    else some (record { elem = fresh; store = set_elems (put fresh (some (new_elem l)) s.elems) s })

-- `p == q` on pointers.
unfoldable pub same_ptr : Option Ptr → Option Ptr → Bool
same_ptr none none = true
same_ptr none (some q) = false
same_ptr (some p) none = false
same_ptr (some p) (some q) = p == q

abbrev pub is_null : Option Ptr → Bool
is_null none = true
is_null (some p) = false

-- The end of Itcl_DeleteListElem: the element goes to the pool, or is freed.
unfoldable pub recycle : Ptr → ListElem → Store → Store
recycle p c s =
    if ltb s.pool_len pool_size
    then record s {
      elems = put p (some (record c { next = s.pool })) s.elems;
      pool = some p;
      pool_len = s.pool_len + 1;
    }
    else set_elems (put p none s.elems) s

-- The list without the element.
unfoldable pub unlink : Ptr → ListElem → ItclList → ItclList
unfolding same_ptr
unlink p c l = record l {
  head = if same_ptr (some p) l.head then c.next else l.head;
  tail = if same_ptr (some p) l.tail then c.prev else l.tail;
  num = l.num - 1;
}

-- The next element, and the store without the element.
pub record Deleted : Type 0 where
  pub next : Option Ptr
  pub store : Store

unfoldable pub delete_elem : Ptr → Store → Option ListElem → Option Deleted
unfolding recycle unlink write_next write_prev
delete_elem p s none = none
delete_elem p s (some c) = do
  e ← write_next c.prev c.next s.elems
  e' ← write_prev c.next c.prev e
  let s' = set_list c.owner (unlink p c (s.lists c.owner)) (set_elems e' s)
  some (record { next = c.next; store = recycle p c s' })

unfoldable pub delete_list_elem : Ptr → Store → Option Deleted
unfolding delete_elem
delete_list_elem p s = delete_elem p s (s.elems p)

-- `while (elemPtr) elemPtr = Itcl_DeleteListElem(elemPtr);`
unfoldable pub delete_elems : ℕ → Option Ptr → Store → Option Store
unfolding delete_list_elem
delete_elems zero p s = none
delete_elems (suc fuel) none s = some s
delete_elems (suc fuel) (some p) s = do d ← delete_list_elem p s; delete_elems fuel d.next d.store

-- `assert(listPtr->validate == ITCL_VALID_LIST)`
abbrev pub assert_valid : ItclList → Option ItclList
assert_valid l = if l.valid then some l else none

unfoldable pub delete_list : ℕ → ListId → Store → Option Store
unfolding delete_elems
delete_list fuel l s = do
  _ ← assert_valid (s.lists l)
  s' ← delete_elems fuel (s.lists l).head s
  some (set_list l (record (s'.lists l) { valid = false }) s')

unfoldable pub set_value : Ptr → ℕ → Store → Option ListElem → Option Store
set_value p v s none = none
set_value p v s (some c) =
    if (s.lists c.owner).valid
    then some (set_elems (put p (some (record c { value = v })) s.elems) s)
    else none

unfoldable pub set_list_value : Ptr → ℕ → Store → Option Store
unfolding set_value
set_list_value p v s = set_value p v s (s.elems p)

-- Itcl_FinishList: the elements of the pool are freed.
unfoldable pub free_pool : ℕ → Option Ptr → Elems → Option Elems
free_pool zero p e = none
free_pool (suc fuel) none e = some e
free_pool (suc fuel) (some p) e = elim (e p) [
  | none ↦ none
  | some c ↦ free_pool fuel c.next (put p none e)
]

unfoldable pub finish_list : ℕ → Store → Option Store
unfolding free_pool
finish_list fuel s = do
  e ← free_pool fuel s.pool s.elems
  some (record s { elems = e; pool = none; pool_len = 0 })
