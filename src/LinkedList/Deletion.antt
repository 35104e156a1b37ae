-- ===== src/LinkedList/Deletion.antt =====
-- Elements leave a list: Itcl_DeleteListElem, and Itcl_DeleteList with its loop.
use itcl.Prelude.{
  ℕ, ◌+◌, ◌-◌, ◌≡◌, refl, ap, ◌∙◌, true, false, Option, some, List, [], ◌∷◌, ◌++◌, arith, ◌==◌,
  if◌then◌else◌, has, length, distinct, has-append, ◌>>=◌, Bool-cases, inl, inr,
}
use itcl.LinkedList.{
  Ptr, ListId, ListElem, Store, Deleted, set_list, set_elems, write_prev, same_ptr, unlink, recycle,
  delete_elem, delete_list_elem,
}
use itcl.LinkedList.Adding.{linked}
use itcl.LinkedList.Links.{
  Cell, ptrs, first, Forward-frame, Backward-frame, SameOutside, relink, outside-append,
  distinct-append, distinct-apart, not_self,
}
use itcl.LinkedList.Contents.{
  start, list_with, Holds, HasPool, Chain-frame, start-cons, same_ptr-start, same_comm, same_refl,
}
use itcl.LinkedList.Pool.{given_back, recycle-HasPool}
use itcl.LinkedList.Insertion.{list_at, list_other}
use itcl.LinkedList.Additions.{not_before, list_eq}

-- The list holds an element between two parts, and the pool holds other elements.
pub record IsFull (s : Store) (l : ListId) (front : List Cell) (p : Ptr) (v : ℕ) (back : List Cell)
    (ps : List Ptr) : Type 0 where
  pub holds : Holds s l front ((p, v) ∷ back)
  pub pool : HasPool s ps
  pub apart : distinct (ps ++ (ptrs front ++ (p ∷ ptrs back))) ≡ true

-- The element has left the list.
pub record Removed (s : Store) (l : ListId) (front : List Cell) (p : Ptr) (back : List Cell)
    (ps : List Ptr) (d : Deleted) : Type 0 where
  pub holds : Holds d.store l front back
  pub next : d.next ≡ first back
  pub pool : HasPool d.store (given_back p ps)
  pub others : (m : ListId) → (m == l) ≡ false → d.store.lists m ≡ s.lists m
  pub outside : SameOutside (ptrs front ++ (p ∷ ptrs back)) s.elems d.store.elems

-- The element is in neither part.
record Alone (front : List Cell) (p : Ptr) (back : List Cell) (ps : List Ptr) : Type 0 where
  not_front : has p (ptrs front) ≡ false
  not_back : has p (ptrs back) ≡ false
  not_pool : has p ps ≡ false
  rest : distinct (ptrs front ++ ptrs back) ≡ true
  pool_apart : (q : Ptr) → has q ps ≡ true → has q (ptrs front ++ ptrs back) ≡ false

not_after :
    (p : Ptr) (xs ys : List Ptr)
    → distinct (xs ++ (p ∷ ys)) ≡ true
    → (has p ys ≡ false) × (distinct (xs ++ ys) ≡ true)
not_after p [] ys h = (ground arith, ground arith)
not_after p (x ∷ xs) ys h =
    let (a, b) = not_after p xs ys (ground arith) in
    (a, ground (arith, b, has-append x xs (p ∷ ys), has-append x xs ys))

not_pooled :
    (p q : Ptr) (ps xs ys : List Ptr)
    → distinct (ps ++ (xs ++ (p ∷ ys))) ≡ true
    → has q ps ≡ true
    → (has q (xs ++ ys) ≡ false) × ((q == p) ≡ false)
not_pooled p q ps xs ys d h =
    let e = distinct-apart ps (xs ++ (p ∷ ys)) q d h in
    (
      ground (arith, has-append q xs (p ∷ ys), has-append q xs ys),
      ground (arith, has-append q xs (p ∷ ys)),
    )

apart-Alone :
    (front : List Cell) (p : Ptr) (back : List Cell) (ps : List Ptr)
    → distinct (ps ++ (ptrs front ++ (p ∷ ptrs back))) ≡ true
    → Alone front p back ps
apart-Alone front p back ps d =
    let (dp, dl) = distinct-append ps (ptrs front ++ (p ∷ ptrs back)) d in
    let (nb, dr) = not_after p (ptrs front) (ptrs back) dl in
    record {
      not_front = not_before p (ptrs front) (ptrs back) dl;
      not_back = nb;
      not_pool = elim (Bool-cases (has p ps)) [
        | inl h ↦ absurd (self_differs p (not_pooled p p ps (ptrs front) (ptrs back) d h).1)
        | inr h ↦ h
      ];
      rest = dr;
      pool_apart = λ q h. (not_pooled p q ps (ptrs front) (ptrs back) d h).0;
    }
  where
    self_differs : (p : Ptr) → (p == p) ≡ false → ⊥
    self_differs p h = ground arith

unlink-list :
    (l : ListId) (p : Ptr) (v : ℕ) (front back : List Cell)
    → has p (ptrs front) ≡ false
    → has p (ptrs back) ≡ false
    → unlink p (linked l v (first front) (first back)) (list_with front ((p, v) ∷ back))
      ≡ list_with front back
unfolding unlink
unlink-list l p v front back hf hb =
    list_eq (length front + length ((p, v) ∷ back) - 1) _ _ _ _ _ (omega arith) (head_of front hf)
      (tail_of back hb)
  where
    head_of :
        (front : List Cell)
        → has p (ptrs front) ≡ false
        → (if same_ptr (some p) (start front ((p, v) ∷ back))
            then first back
            else start front ((p, v) ∷ back))
          ≡ start front back
    head_of [] h = ap (λ b. if b then first back else some p) (same_refl p)
    head_of (c ∷ front) h =
        ap (λ b. if b then first back else start (c ∷ front) ((p, v) ∷ back))
          (same_comm (some p) (start (c ∷ front) ((p, v) ∷ back))
            ∙ same_ptr-start c front ((p, v) ∷ back) p h)
        ∙ start-cons c front ((p, v) ∷ back) back

    tail_of :
        (back : List Cell)
        → has p (ptrs back) ≡ false
        → (if same_ptr (some p) (start back ((p, v) ∷ front))
            then first front
            else start back ((p, v) ∷ front))
          ≡ start back front
    tail_of [] h = ap (λ b. if b then first front else some p) (same_refl p)
    tail_of (c ∷ back) h =
        ap (λ b. if b then first front else start (c ∷ back) ((p, v) ∷ front))
          (same_comm (some p) (start (c ∷ back) ((p, v) ∷ front))
            ∙ same_ptr-start c back ((p, v) ∷ front) p h)
        ∙ start-cons c back ((p, v) ∷ front) front

outside_parts :
    (p q : Ptr) (xs ys : List Ptr)
    → has q (xs ++ (p ∷ ys)) ≡ false
    → (has q (p ∷ []) ≡ false) × (has q (xs ++ ys) ≡ false)
outside_parts p q xs ys h =
    let (a, b) = outside-append xs (p ∷ ys) q h in
    (ground (arith, b), has-append q xs ys ∙ ground (arith, a, b))

-- In a store where a list holds an element, and the pool holds other elements, Itcl_DeleteListElem
-- takes the element out of the list and returns the next one; the other cells keep their order, the
-- element goes to the pool if the pool has fewer than 200 elements, the pool stays a chain of at most
-- that many, and the elements and lists that are not involved stay as they were.
pub delete_list_elem-Removed :
    (s : Store) (l : ListId) (front : List Cell) (p : Ptr) (v : ℕ) (back : List Cell)
    (ps : List Ptr)
    → IsFull s l front p v back ps
    → (d : Deleted) × (delete_list_elem p s ≡ some d) × Removed s l front p back ps d
unfolding delete_list_elem delete_elem
delete_list_elem-Removed s l front p v back ps full =
    let c : ListElem = linked l v (first front) (first back) in
    let alone = apart-Alone front p back ps full.apart in
    let (e1, e2, w1, w2, b2, f2, out2) =
      relink l front back (some p) (some p) (first back) (first front) s.elems full.holds.backward
        full.holds.forward.1 alone.rest in
    let s1 : Store = set_list l (unlink p c (s.lists l)) (set_elems e2 s) in
    let pool1 : HasPool s1 ps = record {
      pool = full.pool.pool;
      pool_len = full.pool.pool_len;
      chain = Chain-frame ps (λ q h. out2 q (alone.pool_apart q h)) full.pool.chain;
      bound = full.pool.bound;
    } in
    let (pool2, (lists2, out3)) = recycle-HasPool p c s1 ps pool1 alone.not_pool in
    let s2 : Store = recycle p c s1 in
    (
      record { next = first back; store = s2 },
      ap (delete_elem p s) full.holds.forward.0
          ∙ ap (λ o. o >>= (λ e. write_prev (first back) (first front) e >>= (λ e'. finished e')))
              w1
          ∙ ap (λ o. o >>= (λ e'. finished e')) w2,
      record {
        holds = record {
          list =
              ap (λ g. g l) lists2
              ∙ list_at l (unlink p c (s.lists l)) (set_elems e2 s)
              ∙ ap (unlink p c) full.holds.list
              ∙ unlink-list l p v front back alone.not_front alone.not_back;
          backward =
              Backward-frame l front (first back)
                (λ q h. out3 q (ground (arith, not_self p q (ptrs front) alone.not_front h))) b2;
          forward =
              Forward-frame l back (first front)
                (λ q h. out3 q (ground (arith, not_self p q (ptrs back) alone.not_back h))) f2;
        };
        next = refl;
        pool = pool2;
        others = λ m h.
            ap (λ g. g m) lists2 ∙ list_other l m (unlink p c (s.lists l)) (set_elems e2 s) h;
        outside =
            λ q h. let (a, b) = outside_parts p q (ptrs front) (ptrs back) h in out3 q a ∙ out2 q b;
      },
    )
  where
    finished : (Ptr → Option ListElem) → Option Deleted
    finished e' =
        let c : ListElem = linked l v (first front) (first back) in
        some (record {
          next = first back;
          store = recycle p c (set_list l (unlink p c (s.lists l)) (set_elems e' s));
        })
