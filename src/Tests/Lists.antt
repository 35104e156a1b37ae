-- ===== src/Tests/Lists.antt =====
-- A list of two elements, with one element in the pool.
use itcl.Prelude.{
  ℕ, ◌≡◌, refl, true, false, Option, none, some, [], ◌∷◌, arith, ◌==◌, if◌then◌else◌, has,
}
use itcl.LinkedList.{
  Ptr, ListElem, Store, NewElem, Deleted, delete_list_elem, delete_list, finish_list,
}
use itcl.LinkedList.Adding.{insert_list}
use itcl.LinkedList.Links.{SameOutside}
use itcl.LinkedList.Contents.{HasPool}
use itcl.LinkedList.Insertion.{IsReady, Added}
use itcl.LinkedList.Additions.{add, before_elem, at_before, add-Added}
use itcl.LinkedList.Deletion.{IsFull, Removed, delete_list_elem-Removed}
use itcl.LinkedList.Disposal.{Emptied, delete_list-Emptied, finish_list-frees}

abbrev cell : Option Ptr → ℕ → Option Ptr → Option ListElem
cell prev v next = some (record { owner = 0; value = v; prev = prev; next = next })

-- The element at 1 has 70, the one at 2 has 80, and 3 is in the pool.
abbrev two_cells : Store
two_cells = record {
  elems = λ q.
      if q == 1
      then cell none 70 (some 2)
      else if q == 2
      then cell (some 1) 80 none
      else if q == 3
      then cell none 90 none
      else none;
  lists = λ l. record { valid = true; num = 2; head = some 1; tail = some 2 };
  pool = some 3;
  pool_len = 1;
}

two_cells-HasPool : HasPool two_cells (3 ∷ [])
two_cells-HasPool = record {
  pool = refl;
  pool_len = refl;
  chain = ((record { owner = 0; value = 90; prev = none; next = none }, refl, refl), tt);
  bound = omega arith;
}

between-IsReady : IsReady two_cells 0 ((1, 70) ∷ []) ((2, 80) ∷ []) (3 ∷ []) 4
between-IsReady = record {
  holds = record { list = refl; backward = (refl, tt); forward = (refl, tt) };
  pool = two_cells-HasPool;
  apart = refl;
}

add-Added_example :
    (k : NewElem) × (add (before_elem 2) 4 0 75 two_cells ≡ some k)
    × Added two_cells 0 ((1, 70) ∷ []) ((2, 80) ∷ []) (3 ∷ []) 4 75 k
add-Added_example =
    add-Added two_cells 0 (before_elem 2) ((1, 70) ∷ []) ((2, 80) ∷ []) (3 ∷ []) 4 75
      between-IsReady at_before

first-IsFull : IsFull two_cells 0 [] 1 70 ((2, 80) ∷ []) (3 ∷ [])
first-IsFull = record {
  holds = record { list = refl; backward = tt; forward = (refl, (refl, tt)) };
  pool = two_cells-HasPool;
  apart = refl;
}

delete_list_elem-Removed_example :
    (d : Deleted) × (delete_list_elem 1 two_cells ≡ some d)
    × Removed two_cells 0 [] 1 ((2, 80) ∷ []) (3 ∷ []) d
delete_list_elem-Removed_example =
    delete_list_elem-Removed two_cells 0 [] 1 70 ((2, 80) ∷ []) (3 ∷ []) first-IsFull

delete_list-Emptied_example :
    (s' : Store) × (delete_list 3 0 two_cells ≡ some s')
    × (s'.lists 0 ≡ record { valid = false; num = 0; head = none; tail = none })
    × Emptied two_cells 0 (1 ∷ 2 ∷ []) s'
delete_list-Emptied_example =
    delete_list-Emptied 3 two_cells 0 ((1, 70) ∷ (2, 80) ∷ []) (3 ∷ []) first-IsFull.holds
      two_cells-HasPool refl (omega arith)

finish_list-frees_example :
    (s' : Store) × (finish_list 2 two_cells ≡ some s')
    × HasPool s' []
    × ((q : Ptr) → has q (3 ∷ []) ≡ true → s'.elems q ≡ none)
    × SameOutside (3 ∷ []) two_cells.elems s'.elems
finish_list-frees_example =
    finish_list-frees 2 two_cells (3 ∷ []) two_cells-HasPool refl (omega arith)

-- A list that was deleted takes no element.
deleted_list_refuses :
    insert_list 4 0 75 (record two_cells {
      lists = λ l. record { valid = false; num = 0; head = none; tail = none };
    })
    ≡ none
unfolding insert_list
deleted_list_refuses = refl
