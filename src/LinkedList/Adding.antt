-- ===== src/LinkedList/Adding.antt =====
-- The four routines that add an element to a list.
use itcl.Prelude.{ℕ, ◌+◌, Option, none, some, if◌then◌else◌, ◌>>=◌}
use itcl.LinkedList.{
  ItclList, ListElem, ListId, NewElem, Ptr, Store, assert_valid, create_list_elem, is_null, put,
  same_ptr, set_elems, set_list, write_next, write_prev,
}

-- The value and the links of a new element.
abbrev pub fill : Ptr → ListElem → Store → Store
fill p c s = set_elems (put p (some c) s.elems) s

-- The list with one element more at the front, `head` and `tail` being tested as the code does.
abbrev pub at_front : Ptr → ItclList → ItclList
at_front p l = record l {
  head = some p;
  tail = if is_null l.tail then some p else l.tail;
  num = l.num + 1;
}

abbrev pub at_back : Ptr → ItclList → ItclList
at_back p l = record l {
  tail = some p;
  head = if is_null l.head then some p else l.head;
  num = l.num + 1;
}

abbrev pub put_before : Ptr → Ptr → ItclList → ItclList
put_before pos p l = record l {
  head = if same_ptr l.head (some pos) then some p else l.head;
  tail = if is_null l.tail then some p else l.tail;
  num = l.num + 1;
}

abbrev pub put_after : Ptr → Ptr → ItclList → ItclList
put_after pos p l = record l {
  tail = if same_ptr l.tail (some pos) then some p else l.tail;
  head = if is_null l.head then some p else l.head;
  num = l.num + 1;
}

-- Where the element goes and what is linked to it: its own links, and the elements that point to it.
abbrev pub link_in : ListId → NewElem → ListElem → (ItclList → ItclList) → Option NewElem
link_in l k c change = do
  let s = fill k.elem c k.store
  e ← write_next c.prev (some k.elem) s.elems
  e' ← write_prev c.next (some k.elem) e
  some (record { elem = k.elem; store = set_list l (change (s.lists l)) (set_elems e' s) })

abbrev pub linked : ListId → ℕ → Option Ptr → Option Ptr → ListElem
linked l v prev next = record { owner = l; value = v; prev = prev; next = next }

unfoldable pub insert_list : Ptr → ListId → ℕ → Store → Option NewElem
unfolding create_list_elem write_next write_prev
insert_list fresh l v s = do
  _ ← assert_valid (s.lists l)
  k ← create_list_elem fresh l s
  link_in l k (linked l v none (k.store.lists l).head) (at_front k.elem)

unfoldable pub append_list : Ptr → ListId → ℕ → Store → Option NewElem
unfolding create_list_elem write_next write_prev
append_list fresh l v s = do
  _ ← assert_valid (s.lists l)
  k ← create_list_elem fresh l s
  link_in l k (linked l v (k.store.lists l).tail none) (at_back k.elem)

unfoldable pub insert_before : Ptr → Ptr → ℕ → Store → Option ListElem → Option NewElem
unfolding create_list_elem write_next write_prev same_ptr
insert_before fresh pos v s none = none
insert_before fresh pos v s (some c) = do
  _ ← assert_valid (s.lists c.owner)
  k ← create_list_elem fresh c.owner s
  link_in c.owner k (linked c.owner v c.prev (some pos)) (put_before pos k.elem)

unfoldable pub insert_list_elem : Ptr → Ptr → ℕ → Store → Option NewElem
unfolding insert_before
insert_list_elem fresh pos v s = insert_before fresh pos v s (s.elems pos)

unfoldable pub append_after : Ptr → Ptr → ℕ → Store → Option ListElem → Option NewElem
unfolding create_list_elem write_next write_prev same_ptr
append_after fresh pos v s none = none
append_after fresh pos v s (some c) = do
  _ ← assert_valid (s.lists c.owner)
  k ← create_list_elem fresh c.owner s
  link_in c.owner k (linked c.owner v (some pos) c.next) (put_after pos k.elem)

unfoldable pub append_list_elem : Ptr → Ptr → ℕ → Store → Option NewElem
unfolding append_after
append_list_elem fresh pos v s = append_after fresh pos v s (s.elems pos)
