-- ===== src/LinkedList/Disposal.antt =====
-- The end of a list and of the pool: Itcl_DeleteList and Itcl_FinishList.
use itcl.Prelude.{
  ℕ, zero, suc, ◌<◌, ◌≡◌, refl, ap, ◌∙◌, Bool, true, false, none, some, List, [], ◌∷◌, ◌++◌, arith,
  ◌==◌, if◌then◌else◌, has, length, distinct, has-append, ◌>>=◌, ltb, Bool-cases, inl, inr,
}
use itcl.LinkedList.{
  Ptr, ListId, ItclList, Store, Elems, put, set_list, assert_valid, delete_elems, delete_list,
  free_pool, finish_list, pool_size,
}
use itcl.LinkedList.Links.{Cell, ptrs, first, SameOutside, put_other, not_self}
use itcl.LinkedList.Contents.{Holds, HasPool, Chain, Chain-frame, top}
use itcl.LinkedList.Pool.{given_back}
use itcl.LinkedList.Insertion.{list_at, list_other}
use itcl.LinkedList.Deletion.{delete_list_elem-Removed}

-- A list without elements, with the pool `ps`; elements outside `qs` and other lists are those of `s`.
pub record Emptied (s : Store) (l : ListId) (qs : List Ptr) (s' : Store) : Type 0 where
  pub left : List Ptr
  pub pool : HasPool s' left
  pub others : (m : ListId) → (m == l) ≡ false → s'.lists m ≡ s.lists m
  pub outside : SameOutside qs s.elems s'.elems

distinct_given :
    (p : Ptr) (ps qs : List Ptr)
    → distinct (ps ++ (p ∷ qs)) ≡ true
    → distinct (given_back p ps ++ qs) ≡ true
distinct_given p ps qs h = split (ltb (length ps) pool_size)
  where
    shifted :
        (xs : List Ptr)
        → distinct (xs ++ (p ∷ qs)) ≡ true
        → (has p (xs ++ qs) ≡ false) × (distinct (xs ++ qs) ≡ true)
    shifted [] h = (ground arith, ground arith)
    shifted (x ∷ xs) h =
        let (a, b) = shifted xs (ground arith) in
        (
          ground (arith, a, has-append x xs (p ∷ qs)),
          ground (arith, b, has-append x xs (p ∷ qs), has-append x xs qs),
        )

    split : (b : Bool) → distinct ((if b then p ∷ ps else ps) ++ qs) ≡ true
    split true = let (a, b) = shifted ps h in ground (arith, a, b)
    split false = (shifted ps h).1

outside_tail : (p q : Ptr) (qs : List Ptr) → has q (p ∷ qs) ≡ false → has q qs ≡ false
outside_tail p q qs h = ground arith

delete_elems-Emptied :
    (fuel : ℕ) (s : Store) (l : ListId) (back : List Cell) (ps : List Ptr)
    → Holds s l [] back
    → HasPool s ps
    → distinct (ps ++ ptrs back) ≡ true
    → length back < fuel
    → (s' : Store) × (delete_elems fuel (first back) s ≡ some s')
      × Holds s' l [] []
      × Emptied s l (ptrs back) s'
unfolding delete_elems
delete_elems-Emptied zero s l back ps h pool d f = elim f [ ]
delete_elems-Emptied (suc fuel) s l [] ps h pool d f =
    (s, refl, h, record { left = ps; pool = pool; others = λ m k. refl; outside = λ q k. refl })
delete_elems-Emptied (suc fuel) s l ((p, v) ∷ back) ps h pool d f =
    let (del, e, removed) =
      delete_list_elem-Removed s l [] p v back ps (record { holds = h; pool = pool; apart = d }) in
    let (s', e', h', rest) =
      delete_elems-Emptied fuel del.store l back (given_back p ps) removed.holds removed.pool
        (distinct_given p ps (ptrs back) d) (omega arith) in
    (
      s',
      ap (λ o. o >>= (λ x. delete_elems fuel x.next x.store)) e
          ∙ ap (λ n. delete_elems fuel n del.store) removed.next
          ∙ e',
      h',
      record {
        left = rest.left;
        pool = rest.pool;
        others = λ m k. rest.others m k ∙ removed.others m k;
        outside = λ q k. rest.outside q (outside_tail p q (ptrs back) k) ∙ removed.outside q k;
      },
    )

abbrev invalidated : ItclList → ItclList
invalidated x = record x { valid = false }

-- Itcl_DeleteList, given more rounds than there are elements, ends: the list is empty and no longer
-- valid, the pool is a chain of at most 200 elements, and the elements and lists that are not involved
-- stay as they were.
pub delete_list-Emptied :
    (fuel : ℕ) (s : Store) (l : ListId) (back : List Cell) (ps : List Ptr)
    → Holds s l [] back
    → HasPool s ps
    → distinct (ps ++ ptrs back) ≡ true
    → length back < fuel
    → (s' : Store) × (delete_list fuel l s ≡ some s')
      × (s'.lists l ≡ record { valid = false; num = 0; head = none; tail = none })
      × Emptied s l (ptrs back) s'
unfolding delete_list
delete_list-Emptied fuel s l back ps h pool d f =
    let (s1, e, h1, rest) = delete_elems-Emptied fuel s l back ps h pool d f in
    let dead : Store → Store = λ x. set_list l (record (x.lists l) { valid = false }) x in
    (
      dead s1,
      ap
            (λ x.
              assert_valid x
              >>= (λ u. delete_elems fuel (s.lists l).head s >>= (λ y. some (dead y))))
            h.list
          ∙ ap (λ x. delete_elems fuel x.head s >>= (λ y. some (dead y))) h.list
          ∙ ap (λ o. o >>= (λ y. some (dead y))) e,
      list_at l (record (s1.lists l) { valid = false }) s1 ∙ ap invalidated h1.list,
      record {
        left = rest.left;
        pool = record {
          pool = rest.pool.pool;
          pool_len = rest.pool.pool_len;
          chain = rest.pool.chain;
          bound = rest.pool.bound;
        };
        others =
            λ m k. list_other l m (record (s1.lists l) { valid = false }) s1 k ∙ rest.others m k;
        outside = rest.outside;
      },
    )

free_pool-frees :
    (fuel : ℕ) (ps : List Ptr) (e : Elems)
    → Chain e ps
    → distinct ps ≡ true
    → length ps < fuel
    → (e' : Elems) × (free_pool fuel (top ps) e ≡ some e')
      × ((q : Ptr) → has q ps ≡ true → e' q ≡ none)
      × SameOutside ps e e'
unfolding free_pool
free_pool-frees zero ps e c d f = elim f [ ]
free_pool-frees (suc fuel) [] e c d f = (e, refl, λ q h. cc, λ q h. refl)
free_pool-frees (suc fuel) (p ∷ ps) e ((c, at_p, next_p), rest) d f =
    let e1 = put p none e in
    let (e', run, freed, same_ptr) =
      free_pool-frees fuel ps e1
        (Chain-frame ps (λ q h. put_other p q none e (not_self p q ps (ground arith) h)) rest)
        (ground arith) (omega arith) in
    (
      e',
      ap (λ o. elim o [ none ↦ none | some x ↦ free_pool fuel x.next e1 ]) at_p
          ∙ ap (λ n. free_pool fuel n e1) next_p
          ∙ run,
      λ q h. elim (Bool-cases (has q ps)) [
        | inl k ↦ freed q k
        | inr k ↦ same_ptr q k ∙ put_gone p q e (ground arith)
      ],
      λ q h. same_ptr q (outside_tail p q ps h) ∙ put_other p q none e (ground arith),
    )
  where
    put_gone : (p q : Ptr) (e : Elems) → (q == p) ≡ true → put p none e q ≡ none
    put_gone p q e h = ground arith

-- Itcl_FinishList, given more rounds than the pool has elements, frees all elements of the pool and
-- no other, and leaves an empty pool.
pub finish_list-frees :
    (fuel : ℕ) (s : Store) (ps : List Ptr)
    → HasPool s ps
    → distinct ps ≡ true
    → length ps < fuel
    → (s' : Store) × (finish_list fuel s ≡ some s')
      × HasPool s' []
      × ((q : Ptr) → has q ps ≡ true → s'.elems q ≡ none)
      × SameOutside ps s.elems s'.elems
unfolding finish_list
finish_list-frees fuel s ps pool d f =
    let (e', run, freed, same_ptr) = free_pool-frees fuel ps s.elems pool.chain d f in
    let emptied : Elems → Store = λ e. record s { elems = e; pool = none; pool_len = 0 } in
    (
      emptied e',
      ap (λ p. free_pool fuel p s.elems >>= (λ e. some (emptied e))) pool.pool
          ∙ ap (λ o. o >>= (λ e. some (emptied e))) run,
      record { pool = refl; pool_len = refl; chain = tt; bound = omega arith },
      freed,
      same_ptr,
    )
