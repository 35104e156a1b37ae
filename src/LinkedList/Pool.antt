-- ===== src/LinkedList/Pool.antt =====
-- Elements come from the pool and go back to it.
use mathlib.Core.Path.{subst}
use itcl.Prelude.{
  ℕ, ◌+◌, ◌-◌, ◌<◌, ◌≡◌, refl, ap, ◌∙◌, sym, Bool, true, false, ◌⊎◌, Option, none, some, List, [],
  ◌∷◌, arith, ltb, if◌then◌else◌, has, length, inl, inr, ltb_of_lt, distinct,
}
use itcl.LinkedList.{
  Ptr, ListId, ListElem, Store, NewElem, put, pool_size, create_list_elem, take_pool, from_pool,
  recycle,
}
use itcl.LinkedList.Links.{SameOutside, put_same, put_other, not_self}
use itcl.LinkedList.Contents.{Chain, Chain-frame, HasPool}

-- The element comes from the pool, unless the pool is empty.
abbrev pub TakenFrom : Ptr → Ptr → List Ptr → List Ptr → Type 0
TakenFrom fresh p ps ps' = (ps ≡ p ∷ ps') ⊎ ((ps ≡ []) × (ps' ≡ []) × (p ≡ fresh))

pub create_list_elem-HasPool :
    (fresh : Ptr) (l : ListId) (s : Store) (ps : List Ptr)
    → HasPool s ps
    → distinct ps ≡ true
    → (k : NewElem) × (ps' : List Ptr) × (create_list_elem fresh l s ≡ some k)
      × (k.store.lists ≡ s.lists)
      × HasPool k.store ps'
      × SameOutside (k.elem ∷ []) s.elems k.store.elems
      × TakenFrom fresh k.elem ps ps'
unfolding create_list_elem take_pool from_pool
create_list_elem-HasPool fresh l s [] h d =
    let new = some (record { owner = l; value = 0; prev = none; next = none }) in
    let k : NewElem = record { elem = fresh; store = record s { elems = put fresh new s.elems } } in
    (
      k,
      [],
      ap (λ n. if ltb 0 n then take_pool l s s.pool else some k) h.pool_len,
      refl,
      record { pool = h.pool; pool_len = h.pool_len; chain = tt; bound = omega arith },
      λ q e. put_other fresh q new s.elems (ground arith),
      inr (refl, refl, refl),
    )
create_list_elem-HasPool fresh l s (p ∷ ps) h d =
    let ((c, at_p, next_p), rest) = h.chain in
    let new = some (record { owner = l; value = 0; prev = none; next = none }) in
    let k : NewElem = record {
      elem = p;
      store = record s { elems = put p new s.elems; pool = c.next; pool_len = s.pool_len - 1 };
    } in
    (
      k,
      ps,
      ap
            (λ b.
              if b
              then take_pool l s s.pool
              else some
                  (record { elem = fresh; store = record s { elems = put fresh new s.elems } }))
            (ltb_of_lt 0 s.pool_len (omega (arith, h.pool_len)))
          ∙ ap (take_pool l s) h.pool
          ∙ ap (from_pool l s p) at_p,
      refl,
      record {
        pool = next_p;
        pool_len = omega (arith, h.pool_len);
        chain =
            Chain-frame ps (λ q m. put_other p q new s.elems (not_self p q ps (ground arith) m))
              rest;
        bound = omega (arith, h.bound);
      },
      λ q e. put_other p q new s.elems (ground arith),
      inl refl,
    )

-- What the pool has after an element came back: it is freed if the pool is full.
abbrev pub given_back : Ptr → List Ptr → List Ptr
given_back p ps = if ltb (length ps) pool_size then p ∷ ps else ps

lt_of_ltb : (a b : ℕ) → ltb a b ≡ true → a < b
lt_of_ltb a b h = ground (arith, h)

pub recycle-HasPool :
    (p : Ptr) (c : ListElem) (s : Store) (ps : List Ptr)
    → HasPool s ps
    → has p ps ≡ false
    → HasPool (recycle p c s) (given_back p ps)
      × (((recycle p c s).lists ≡ s.lists) × SameOutside (p ∷ []) s.elems (recycle p c s).elems)
unfolding recycle
recycle-HasPool p c s ps h d =
    subst (λ n. Back (if ltb n pool_size then pooled else freed) (given_back p ps)) (sym h.pool_len)
      (split (ltb (length ps) pool_size) refl)
  where
    Back : Store → List Ptr → Type 0
    Back s' ps' = HasPool s' ps' × ((s'.lists ≡ s.lists) × SameOutside (p ∷ []) s.elems s'.elems)

    at_pool : Option ListElem
    at_pool = some (record c { next = s.pool })

    pooled : Store
    pooled = record s { elems = put p at_pool s.elems; pool = some p; pool_len = s.pool_len + 1 }

    freed : Store
    freed = record s { elems = put p none s.elems }

    kept : (v : Option ListElem) → Chain (put p v s.elems) ps
    kept v = Chain-frame ps (λ q m. put_other p q v s.elems (not_self p q ps d m)) h.chain

    split :
        (b : Bool)
        → ltb (length ps) pool_size ≡ b
        → Back (if b then pooled else freed) (if b then p ∷ ps else ps)
    split true e = (
      record {
        pool = refl;
        pool_len = omega (arith, h.pool_len);
        chain = ((record c { next = s.pool }, put_same p at_pool s.elems, h.pool), kept at_pool);
        bound = lt_of_ltb (length ps) pool_size e;
      },
      (refl, λ q m. put_other p q at_pool s.elems (ground arith)),
    )
    split false e = (
      record { pool = h.pool; pool_len = h.pool_len; chain = kept none; bound = h.bound },
      (refl, λ q m. put_other p q none s.elems (ground arith)),
    )
