-- ===== src/LinkedList/Contents.antt =====
-- What a list and the pool hold, with a place in the list: the cells before it, the nearest one first,
-- and the cells from it on.
use itcl.Prelude.{
  ◌+◌, ◌≤◌, ◌≡◌, refl, ap, ◌∙◌, true, false, Option, none, some, List, [], ◌∷◌, arith, ◌==◌, has,
  length, Bool-cases, inl, inr, ==_refl,
}
use itcl.LinkedList.{Ptr, ListId, ListElem, ItclList, Elems, Store, pool_size, same_ptr, is_null}
use itcl.LinkedList.Links.{Cell, ptrs, first, Forward, Backward}

-- The far end of the cells before a place, or the place itself.
abbrev pub start : List Cell → List Cell → Option Ptr
start [] back = first back
start (c ∷ front) back = start front (c ∷ back)

-- The record of a list with the cells.
abbrev pub list_with : List Cell → List Cell → ItclList
list_with front back = record {
  valid = true;
  num = length front + length back;
  head = start front back;
  tail = start back front;
}

-- The list holds the cells before and behind the place.
pub record Holds (s : Store) (l : ListId) (front back : List Cell) : Type 0 where
  pub list : s.lists l ≡ list_with front back
  pub backward : Backward s.elems l (first back) front
  pub forward : Forward s.elems l (first front) back

abbrev pub top : List Ptr → Option Ptr
top [] = none
top (p ∷ ps) = some p

-- A chain of elements, by their `next`.
abbrev pub Chain : Elems → List Ptr → Type 0
Chain e [] = Unit
Chain e (p ∷ ps) = ((c : ListElem) × (e p ≡ some c) × (c.next ≡ top ps)) × Chain e ps

-- The pool is a chain of the elements, 200 at most.
pub record HasPool (s : Store) (ps : List Ptr) : Type 0 where
  pub pool : s.pool ≡ top ps
  pub pool_len : s.pool_len ≡ length ps
  pub chain : Chain s.elems ps
  pub bound : length ps ≤ pool_size

pub Chain-frame :
    {e e' : Elems} (ps : List Ptr)
    → ((q : Ptr) → has q ps ≡ true → e' q ≡ e q)
    → Chain e ps
    → Chain e' ps
Chain-frame [] h k = k
Chain-frame (p ∷ ps) h ((c, a, b), k) =
    ((c, h p (ground arith) ∙ a, b), Chain-frame ps (λ q m. h q (ground (arith, m))) k)

-- The end of a chain that is not empty does not depend on what is behind the place.
pub start-cons :
    (c : Cell) (front back back' : List Cell) → start (c ∷ front) back ≡ start (c ∷ front) back'
start-cons c [] back back' = refl
start-cons c (d ∷ front) back back' = start-cons d front (c ∷ back) (c ∷ back')

-- It is one of the chain's elements.
pub start-has :
    (c : Cell) (front back : List Cell)
    → (q : Ptr) × (start (c ∷ front) back ≡ some q) × (has q (ptrs (c ∷ front)) ≡ true)
start-has (p, v) [] back = (p, refl, ground arith)
start-has (p, v) (d ∷ front) back =
    let (q, e, h) = start-has d front ((p, v) ∷ back) in (q, e, ground (arith, h))

pub is_null-start : (c : Cell) (front back : List Cell) → is_null (start (c ∷ front) back) ≡ false
is_null-start c front back = let (q, e, h) = start-has c front back in ap is_null e

-- The end of the list is the element before the place exactly if nothing is before that.
pub same_ptr-start :
    (c : Cell) (front back : List Cell) (p : Ptr)
    → has p (ptrs (c ∷ front)) ≡ false
    → same_ptr (start (c ∷ front) back) (some p) ≡ false
unfolding same_ptr
same_ptr-start c front back p h =
    let (q, e, k) = start-has c front back in
    ap (λ o. same_ptr o (some p)) e ∙ differ q p (ptrs (c ∷ front)) k h
  where
    differ : (q p : Ptr) (xs : List Ptr) → has q xs ≡ true → has p xs ≡ false → (q == p) ≡ false
    differ q p [] k h = cc
    differ q p (x ∷ xs) k h = elim (Bool-cases (has q xs)) [
      | inl a ↦ differ q p xs a (ground arith)
      | inr a ↦ ground arith
    ]

pub same_comm : (a b : Option Ptr) → same_ptr a b ≡ same_ptr b a
unfolding same_ptr
same_comm none none = refl
same_comm none (some b) = refl
same_comm (some a) none = refl
same_comm (some a) (some b) = ground arith

pub same_refl : (p : Ptr) → same_ptr (some p) (some p) ≡ true
unfolding same_ptr
same_refl p = ==_refl p
