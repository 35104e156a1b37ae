-- ===== src/LinkedList/Additions.antt =====
-- The four routines that add an element, each at its place.
use itcl.Prelude.{
  ℕ, ◌+◌, ◌≡◌, refl, ap, ◌∙◌, true, false, Option, none, some, List, [], ◌∷◌, ◌++◌, arith,
  if◌then◌else◌, has, length, distinct, has-append, ◌>>=◌,
}
use itcl.LinkedList.{
  Ptr, ListId, ListElem, ItclList, Store, NewElem, create_list_elem, assert_valid, same_ptr,
}
use itcl.LinkedList.Adding.{
  linked, link_in, insert_list, append_list, insert_list_elem, append_list_elem, insert_before,
  append_after, at_front, at_back, put_before, put_after,
}
use itcl.LinkedList.Links.{Cell, ptrs, first, distinct-append, distinct-apart}
use itcl.LinkedList.Contents.{
  start, list_with, start-cons, is_null-start, same_ptr-start, same_refl,
}
use itcl.LinkedList.Pool.{create_list_elem-HasPool}
use itcl.LinkedList.Insertion.{IsReady, Added, link_in-Added}

distinct_tail : (x : Ptr) (xs : List Ptr) → distinct (x ∷ xs) ≡ true → distinct xs ≡ true
distinct_tail x xs h = ground arith

-- What the four have in common: the element is made and linked in.
abbrev add_with :
    Ptr → ListId → Store → (NewElem → ListElem) → (Ptr → ItclList → ItclList) → Option NewElem
add_with fresh l s c change = do
  _ ← assert_valid (s.lists l)
  k ← create_list_elem fresh l s
  link_in l k (c k) (change k.elem)

add_with-Added :
    (s : Store) (l : ListId) (front back : List Cell) (ps : List Ptr) (fresh : Ptr) (v : ℕ)
    (c : NewElem → ListElem) (change : Ptr → ItclList → ItclList)
    → IsReady s l front back ps fresh
    → ((k : NewElem) → k.store.lists ≡ s.lists → c k ≡ linked l v (first front) (first back))
    → ((p : Ptr) → change p (list_with front back) ≡ list_with front ((p, v) ∷ back))
    → (k : NewElem) × (add_with fresh l s c change ≡ some k) × Added s l front back ps fresh v k
add_with-Added s l front back ps fresh v c change ready links right =
    let (k, left, made, same_lists, pool, out, taken) =
      create_list_elem-HasPool fresh l s ps ready.pool (distinct_pool ready.apart) in
    let (k', done, added) =
      link_in-Added s l front back ps fresh v k left (change k.elem) ready same_lists pool out taken
        (right k.elem) in
    (
      k',
      ap
            (λ x.
              assert_valid x
              >>= (λ u. create_list_elem fresh l s >>= (λ m. link_in l m (c m) (change m.elem))))
            ready.holds.list
          ∙ ap (λ o. o >>= (λ m. link_in l m (c m) (change m.elem))) made
          ∙ ap (λ x. link_in l k x (change k.elem)) (links k same_lists)
          ∙ done,
      added,
    )
  where
    distinct_pool : distinct (fresh ∷ ps ++ (ptrs front ++ ptrs back)) ≡ true → distinct ps ≡ true
    distinct_pool h =
        (distinct-append ps (ptrs front ++ ptrs back)
          (distinct_tail fresh (ps ++ (ptrs front ++ ptrs back)) h)).0

abbrev pub list_of : ℕ → Option Ptr → Option Ptr → ItclList
list_of n h t = record { valid = true; num = n; head = h; tail = t }

pub list_eq :
    (n n' : ℕ) (h h' t t' : Option Ptr)
    → n ≡ n'
    → h ≡ h'
    → t ≡ t'
    → list_of n h t ≡ list_of n' h' t'
list_eq n n' h h' t t' en eh et =
    ap (λ x. list_of x h t) en ∙ ap (λ x. list_of n' x t) eh ∙ ap (λ x. list_of n' h' x) et

one_more :
    (p : Ptr) (v : ℕ) (front back : List Cell)
    → length front + length back + 1 ≡ length front + length ((p, v) ∷ back)
one_more p v front back = omega arith

at_front-list :
    (p : Ptr) (v : ℕ) (back : List Cell)
    → at_front p (list_with [] back) ≡ list_with [] ((p, v) ∷ back)
at_front-list p v [] = refl
at_front-list p v (c ∷ back) =
    list_eq (0 + length (c ∷ back) + 1) _ (some p) (some p) _ _ (one_more p v [] (c ∷ back)) refl (
      ap (λ b. if b then some p else start (c ∷ back) []) (is_null-start c back [])
      ∙ start-cons c back [] ((p, v) ∷ []))

at_back-list :
    (p : Ptr) (v : ℕ) (front : List Cell)
    → at_back p (list_with front []) ≡ list_with front ((p, v) ∷ [])
at_back-list p v [] = refl
at_back-list p v (c ∷ front) =
    list_eq (length (c ∷ front) + 0 + 1) _ _ _ (some p) (some p) (one_more p v (c ∷ front) [])
      (ap (λ b. if b then some p else start (c ∷ front) []) (is_null-start c front [])
        ∙ start-cons c front [] ((p, v) ∷ []))
      refl

put_before-list :
    (pos p : Ptr) (w v : ℕ) (front back : List Cell)
    → has pos (ptrs front) ≡ false
    → put_before pos p (list_with front ((pos, w) ∷ back))
      ≡ list_with front ((p, v) ∷ (pos, w) ∷ back)
put_before-list pos p w v front back new =
    list_eq (length front + length ((pos, w) ∷ back) + 1) _ _ _ _ _
      (one_more p v front ((pos, w) ∷ back)) (head_of front new)
      (ap (λ b. if b then some p else start ((pos, w) ∷ back) front)
          (is_null-start (pos, w) back front)
        ∙ start-cons (pos, w) back front ((p, v) ∷ front))
  where
    head_of :
        (front : List Cell)
        → has pos (ptrs front) ≡ false
        → (if same_ptr (start front ((pos, w) ∷ back)) (some pos)
            then some p
            else start front ((pos, w) ∷ back))
          ≡ start front ((p, v) ∷ (pos, w) ∷ back)
    head_of [] h = ap (λ b. if b then some p else some pos) (same_refl pos)
    head_of (c ∷ front) h =
        ap (λ b. if b then some p else start (c ∷ front) ((pos, w) ∷ back))
          (same_ptr-start c front ((pos, w) ∷ back) pos h)
        ∙ start-cons c front ((pos, w) ∷ back) ((p, v) ∷ (pos, w) ∷ back)

put_after-list :
    (pos p : Ptr) (w v : ℕ) (front back : List Cell)
    → has pos (ptrs back) ≡ false
    → put_after pos p (list_with ((pos, w) ∷ front) back)
      ≡ list_with ((pos, w) ∷ front) ((p, v) ∷ back)
put_after-list pos p w v front back new =
    list_eq (length ((pos, w) ∷ front) + length back + 1) _ _ _ _ _
      (one_more p v ((pos, w) ∷ front) back)
      (ap (λ b. if b then some p else start ((pos, w) ∷ front) back)
          (is_null-start (pos, w) front back)
        ∙ start-cons (pos, w) front back ((p, v) ∷ back))
      (tail_of back new)
  where
    tail_of :
        (back : List Cell)
        → has pos (ptrs back) ≡ false
        → (if same_ptr (start back ((pos, w) ∷ front)) (some pos)
            then some p
            else start back ((pos, w) ∷ front))
          ≡ start ((p, v) ∷ back) ((pos, w) ∷ front)
    tail_of [] h = ap (λ b. if b then some p else some pos) (same_refl pos)
    tail_of (c ∷ back) h =
        ap (λ b. if b then some p else start (c ∷ back) ((pos, w) ∷ front))
          (same_ptr-start c back ((pos, w) ∷ front) pos h)
        ∙ start-cons c back ((pos, w) ∷ front) ((p, v) ∷ (pos, w) ∷ front)

-- The places of a new element, and the code that puts it there.
pub data Place : Type 0 where
  first_place last_place : Place
  before_elem after_elem : Ptr → Place

unfoldable pub add : Place → Ptr → ListId → ℕ → Store → Option NewElem
unfolding insert_list append_list insert_list_elem append_list_elem
add first_place fresh l v s = insert_list fresh l v s
add last_place fresh l v s = append_list fresh l v s
add (before_elem pos) fresh l v s = insert_list_elem fresh pos v s
add (after_elem pos) fresh l v s = append_list_elem fresh pos v s

-- The place is between the two parts of the list.
pub data IsPlace : Place → List Cell → List Cell → Type 0 where
  at_first : {back : List Cell} → IsPlace first_place [] back
  at_last : {front : List Cell} → IsPlace last_place front []
  at_before :
      {pos : Ptr} {w : ℕ} {front back : List Cell}
      → IsPlace (before_elem pos) front ((pos, w) ∷ back)
  at_after :
      {pos : Ptr} {w : ℕ} {front back : List Cell}
      → IsPlace (after_elem pos) ((pos, w) ∷ front) back

-- The position is in one part of the list only.
pos_apart :
    (fresh : Ptr) (ps xs ys : List Ptr)
    → distinct (fresh ∷ ps ++ (xs ++ ys)) ≡ true
    → distinct (xs ++ ys) ≡ true
pos_apart fresh ps xs ys h =
    (distinct-append ps (xs ++ ys) (distinct_tail fresh (ps ++ (xs ++ ys)) h)).1

pub not_before :
    (pos : Ptr) (xs ys : List Ptr) → distinct (xs ++ (pos ∷ ys)) ≡ true → has pos xs ≡ false
not_before pos [] ys h = refl
not_before pos (x ∷ xs) ys h =
    ground (arith, not_before pos xs ys (ground arith), has-append x xs (pos ∷ ys))

-- In a store where a list holds some cells, the pool holds other elements, and the element that
-- ckalloc would return is none of these, Itcl_InsertList, Itcl_AppendList, Itcl_InsertListElem and
-- Itcl_AppendListElem succeed: they put the value at the head, at the tail, before or after the
-- element given, in an element from the pool if the pool has one; the other cells keep their order, the
-- pool stays a chain of at most 200 elements, and other elements and lists stay as they were.
pub add-Added :
    (s : Store) (l : ListId) (place : Place) (front back : List Cell) (ps : List Ptr) (fresh : Ptr)
    (v : ℕ)
    → IsReady s l front back ps fresh
    → IsPlace place front back
    → (k : NewElem) × (add place fresh l v s ≡ some k) × Added s l front back ps fresh v k
unfolding add insert_list append_list insert_list_elem append_list_elem insert_before append_after
add-Added s l _ _ _ ps fresh v ready (at_first {back}) =
    add_with-Added s l [] back ps fresh v (λ k. linked l v none (k.store.lists l).head) at_front
      ready (λ k e. ap (λ x. linked l v none x.head) (ap (λ g. g l) e ∙ ready.holds.list))
      (λ p. at_front-list p v back)
add-Added s l _ _ _ ps fresh v ready (at_last {front}) =
    add_with-Added s l front [] ps fresh v (λ k. linked l v (k.store.lists l).tail none) at_back
      ready (λ k e. ap (λ x. linked l v x.tail none) (ap (λ g. g l) e ∙ ready.holds.list))
      (λ p. at_back-list p v front)
add-Added s l _ _ _ ps fresh v ready (at_before {pos} {w} {front} {back}) =
    let (k, e, added) =
      add_with-Added s l front ((pos, w) ∷ back) ps fresh v
        (λ k. linked l v (first front) (some pos)) (put_before pos) ready (λ k e. refl)
        (λ p. put_before-list pos p w v front back (
          not_before pos (ptrs front) (ptrs back)
            (pos_apart fresh ps (ptrs front) (pos ∷ ptrs back) ready.apart))) in
    (k, ap (insert_before fresh pos v s) (ready.holds.forward.0) ∙ e, added)
add-Added s l _ _ _ ps fresh v ready (at_after {pos} {w} {front} {back}) =
    let (k, e, added) =
      add_with-Added s l ((pos, w) ∷ front) back ps fresh v
        (λ k. linked l v (some pos) (first back)) (put_after pos) ready (λ k e. refl)
        (λ p. put_after-list pos p w v front back (
          distinct-apart (pos ∷ ptrs front) (ptrs back) pos
            (pos_apart fresh ps (pos ∷ ptrs front) (ptrs back) ready.apart) (ground arith))) in
    (k, ap (append_after fresh pos v s) (ready.holds.backward.0) ∙ e, added)
