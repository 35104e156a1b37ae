-- ===== src/LinkedList/Insertion.antt =====
-- New elements of a list: Itcl_InsertList, Itcl_AppendList, Itcl_InsertListElem, Itcl_AppendListElem.
use mathlib.Core.Path.{subst}
use itcl.Prelude.{
  ℕ, ◌≡◌, ap, ◌∙◌, sym, true, false, some, List, [], ◌∷◌, ◌++◌, arith, ◌==◌, has, inl, inr,
  distinct, has-append, ◌>>=◌,
}
use itcl.LinkedList.{
  Ptr, ListId, ListElem, ItclList, Store, NewElem, put, set_list, set_elems, write_next, write_prev,
}
use itcl.LinkedList.Adding.{linked, link_in}
use itcl.LinkedList.Links.{
  Cell, ptrs, first, Forward-frame, Backward-frame, SameOutside, put_same, put_other, not_self,
  relink, outside-append, distinct-append, distinct-apart,
}
use itcl.LinkedList.Contents.{list_with, Holds, HasPool, Chain-frame}
use itcl.LinkedList.Pool.{TakenFrom}

-- A list holds the cells on both sides of a place, the pool holds other elements, and `fresh` is none
-- of these.
pub record IsReady (s : Store) (l : ListId) (front back : List Cell) (ps : List Ptr) (fresh : Ptr)
    : Type 0 where
  pub holds : Holds s l front back
  pub pool : HasPool s ps
  pub apart : distinct (fresh ∷ ps ++ (ptrs front ++ ptrs back)) ≡ true

-- The element is new at the place, in front of `back`; the elements and lists that are not involved
-- stay as they are.
pub record Added (s : Store) (l : ListId) (front back : List Cell) (ps : List Ptr) (fresh : Ptr)
    (v : ℕ) (k : NewElem) : Type 0 where
  pub holds : Holds k.store l front ((k.elem, v) ∷ back)
  pub left : List Ptr
  pub pool : HasPool k.store left
  pub taken : TakenFrom fresh k.elem ps left
  pub others : (m : ListId) → (m == l) ≡ false → k.store.lists m ≡ s.lists m
  pub outside : SameOutside (fresh ∷ ps ++ (ptrs front ++ ptrs back)) s.elems k.store.elems

-- The element that is taken is no element of the list, and what is left of the pool is neither.
record Parted (p : Ptr) (left qs : List Ptr) : Type 0 where
  not_left : has p left ≡ false
  not_list : has p qs ≡ false
  left_apart : (q : Ptr) → has q left ≡ true → has q qs ≡ false

TakenFrom-Parted :
    (fresh p : Ptr) (ps left qs : List Ptr)
    → TakenFrom fresh p ps left
    → distinct (fresh ∷ ps ++ qs) ≡ true
    → Parted p left qs
TakenFrom-Parted fresh p ps left qs (inl e) d =
    let d' = subst (λ xs. distinct (fresh ∷ xs ++ qs) ≡ true) e d in
    record {
      not_left = ground (arith, has-append p left qs);
      not_list = ground (arith, has-append p left qs);
      left_apart = λ q h. distinct-apart left qs q (ground arith) h;
    }
TakenFrom-Parted fresh p ps left qs (inr (e, e', f)) d =
    let d' = subst (λ xs. distinct (fresh ∷ xs ++ qs) ≡ true) e d in
    record {
      not_left = ap (has p) e';
      not_list = ap (λ x. has x qs) f ∙ ground arith;
      left_apart = λ q h. absurd (nothing q (ap (has q) (sym e') ∙ h));
    }
  where
    nothing : (q : Ptr) → has q [] ≡ true → ⊥
    nothing q h = cc

not_taken :
    (fresh p q : Ptr) (ps left qs : List Ptr)
    → TakenFrom fresh p ps left
    → has q (fresh ∷ ps ++ qs) ≡ false
    → ((q == p) ≡ false) × (has q qs ≡ false)
not_taken fresh p q ps left qs (inl e) h =
    let h' = subst (λ xs. has q (fresh ∷ xs ++ qs) ≡ false) e h in
    (ground (arith, has-append q left qs), ground (arith, has-append q left qs))
not_taken fresh p q ps left qs (inr (e, e', f)) h =
    let h' = subst (λ xs. has q (fresh ∷ xs ++ qs) ≡ false) e h in
    (ap (λ x. q == x) f ∙ ground arith, ground arith)

pub list_at : (l : ListId) (v : ItclList) (s : Store) → (set_list l v s).lists l ≡ v
list_at l v s = ground arith

pub list_other :
    (l m : ListId) (v : ItclList) (s : Store)
    → (m == l) ≡ false
    → (set_list l v s).lists m ≡ s.lists m
list_other l m v s h = ground arith

-- An element from the pool is linked in, where the new list record is the right one.
pub link_in-Added :
    (s : Store) (l : ListId) (front back : List Cell) (ps : List Ptr) (fresh : Ptr) (v : ℕ)
    (k : NewElem) (left : List Ptr) (change : ItclList → ItclList)
    → IsReady s l front back ps fresh
    → k.store.lists ≡ s.lists
    → HasPool k.store left
    → SameOutside (k.elem ∷ []) s.elems k.store.elems
    → TakenFrom fresh k.elem ps left
    → change (list_with front back) ≡ list_with front ((k.elem, v) ∷ back)
    → (k' : NewElem) × (link_in l k (linked l v (first front) (first back)) change ≡ some k')
      × Added s l front back ps fresh v k'
unfolding write_next write_prev
link_in-Added s l front back ps fresh v k left change ready same_lists pool out taken right =
    let p = k.elem in
    let qs = ptrs front ++ ptrs back in
    let c : ListElem = linked l v (first front) (first back) in
    let e0 = put p (some c) k.store.elems in
    let parted = TakenFrom-Parted fresh p ps left qs taken ready.apart in
    let (not_front, not_back) = outside-append (ptrs front) (ptrs back) p parted.not_list in
    let same0 : (q : Ptr) → (q == p) ≡ false → e0 q ≡ s.elems q =
      λ q h. put_other p q (some c) k.store.elems h ∙ out q (ground (arith, h)) in
    let distinct_qs : distinct qs ≡ true =
      (distinct-append ps qs (distinct_tail fresh (ps ++ qs) ready.apart)).1 in
    let (e1, e2, w1, w2, b2, f2, out2) =
      relink l front back (first back) (first front) (some p) (some p) e0
        (Backward-frame l front (first back)
          (λ q h. same0 q (not_self p q (ptrs front) not_front h)) ready.holds.backward)
        (Forward-frame l back (first front) (λ q h. same0 q (not_self p q (ptrs back) not_back h))
          ready.holds.forward)
        distinct_qs in
    let s' : Store = set_list l (change (k.store.lists l)) (set_elems e2 k.store) in
    let k' : NewElem = record { elem = p; store = s' } in
    (
      k',
      ap
            (λ o. o >>= (λ e. write_prev (first back) (some p) e >>= (λ e'. some (record {
              elem = p;
              store = set_list l (change (k.store.lists l)) (set_elems e' k.store);
            }))))
            w1
          ∙ ap
              (λ o. o >>= (λ e'. some (record {
                elem = p;
                store = set_list l (change (k.store.lists l)) (set_elems e' k.store);
              })))
              w2,
      record {
        holds = record {
          list =
              list_at l (change (k.store.lists l)) (set_elems e2 k.store)
              ∙ ap (λ g. change (g l)) same_lists
              ∙ ap change ready.holds.list
              ∙ right;
          backward = b2;
          forward = (out2 p parted.not_list ∙ put_same p (some c) k.store.elems, f2);
        };
        left = left;
        pool = record {
          pool = pool.pool;
          pool_len = pool.pool_len;
          chain =
              Chain-frame left
                (λ q h.
                  out2 q (parted.left_apart q h)
                  ∙ put_other p q (some c) k.store.elems (not_self p q left parted.not_left h))
                pool.chain;
          bound = pool.bound;
        };
        taken = taken;
        others = λ m h.
            list_other l m (change (k.store.lists l)) (set_elems e2 k.store) h
            ∙ ap (λ g. g m) same_lists;
        outside =
            λ q h. let (a, b) = not_taken fresh p q ps left qs taken h in out2 q b ∙ same0 q a;
      },
    )
  where
    distinct_tail : (x : Ptr) (xs : List Ptr) → distinct (x ∷ xs) ≡ true → distinct xs ≡ true
    distinct_tail x xs h = ground arith
