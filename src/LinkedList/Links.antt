-- ===== src/LinkedList/Links.antt =====
-- The elements of a list on both sides of a place in it: `front` from the place to the head, and `back`
-- from the place to the tail.
use mathlib.Core.Path.{subst}
use itcl.Prelude.{
  ℕ, ◌≡◌, refl, ap, ◌∙◌, sym, true, false, Option, none, some, List, [], ◌∷◌, ◌++◌, arith, ◌==◌,
  has, distinct, has-append, ==_iff, Bool-cases, inl, inr,
}
use itcl.LinkedList.{Ptr, ListId, ListElem, Elems, put, write_at, write_next, write_prev}

-- A pointer to an element, and the value of the element.
abbrev pub Cell : Type 0
Cell = Ptr × ℕ

abbrev pub ptrs : List Cell → List Ptr
ptrs [] = []
ptrs ((p, v) ∷ cs) = p ∷ ptrs cs

abbrev pub first : List Cell → Option Ptr
first [] = none
first ((p, v) ∷ cs) = some p

-- Going to the tail: the first element has `prev`, each other one the one before it.
abbrev pub Forward : Elems → ListId → Option Ptr → List Cell → Type 0
Forward e l prev [] = Unit
Forward e l prev ((p, v) ∷ cs) =
    (e p ≡ some (record { owner = l; value = v; prev = prev; next = first cs }))
    × Forward e l (some p) cs

-- Going to the head.
abbrev pub Backward : Elems → ListId → Option Ptr → List Cell → Type 0
Backward e l next [] = Unit
Backward e l next ((p, v) ∷ cs) =
    (e p ≡ some (record { owner = l; value = v; prev = first cs; next = next }))
    × Backward e l (some p) cs

-- The elements that are not named are the same.
abbrev pub SameOutside : List Ptr → Elems → Elems → Type 0
SameOutside ps e e' = (q : Ptr) → has q ps ≡ false → e' q ≡ e q

pub put_same : (p : Ptr) (c : Option ListElem) (e : Elems) → put p c e p ≡ c
put_same p c e = ground arith

pub put_other : (p q : Ptr) (c : Option ListElem) (e : Elems) → (q == p) ≡ false → put p c e q ≡ e q
put_other p q c e h = ground arith

pub not_self : (p q : Ptr) (ps : List Ptr) → has p ps ≡ false → has q ps ≡ true → (q == p) ≡ false
not_self p q [] h k = cc
not_self p q (x ∷ xs) h k = elim (Bool-cases (has q xs)) [
  | inl e ↦ not_self p q xs (ground arith) e
  | inr e ↦ ground arith
]

module _ (l : ListId) {e e' : Elems} where
  pub Forward-frame :
      (cs : List Cell) (prev : Option Ptr)
      → ((q : Ptr) → has q (ptrs cs) ≡ true → e' q ≡ e q)
      → Forward e l prev cs
      → Forward e' l prev cs
  Forward-frame [] prev h f = f
  Forward-frame ((p, v) ∷ cs) prev h (c, f) =
      (h p (ground arith) ∙ c, Forward-frame cs (some p) (λ q k. h q (ground (arith, k))) f)

  pub Backward-frame :
      (cs : List Cell) (next : Option Ptr)
      → ((q : Ptr) → has q (ptrs cs) ≡ true → e' q ≡ e q)
      → Backward e l next cs
      → Backward e' l next cs
  Backward-frame [] next h f = f
  Backward-frame ((p, v) ∷ cs) next h (c, f) =
      (h p (ground arith) ∙ c, Backward-frame cs (some p) (λ q k. h q (ground (arith, k))) f)

-- The link out of a chain is set.
pub write_next-Backward :
    (l : ListId) (cs : List Cell) (x x' : Option Ptr) (e : Elems)
    → Backward e l x cs
    → distinct (ptrs cs) ≡ true
    → (e' : Elems) × (write_next (first cs) x' e ≡ some e')
      × Backward e' l x' cs
      × SameOutside (ptrs cs) e e'
unfolding write_next write_at
write_next-Backward l [] x x' e b d = (e, refl, b, λ q h. refl)
write_next-Backward l ((p, v) ∷ cs) x x' e (c, b) d =
    let changed = some (record { owner = l; value = v; prev = first cs; next = x' }) in
    (
      put p changed e,
      ap (write_at p (λ k. record k { next = x' }) e) c,
      (
        put_same p changed e,
        Backward-frame l cs (some p)
            (λ q h. put_other p q changed e (not_self p q (ptrs cs) (ground arith) h)) b,
      ),
      λ q h. put_other p q changed e (ground arith),
    )

pub write_prev-Forward :
    (l : ListId) (cs : List Cell) (x x' : Option Ptr) (e : Elems)
    → Forward e l x cs
    → distinct (ptrs cs) ≡ true
    → (e' : Elems) × (write_prev (first cs) x' e ≡ some e')
      × Forward e' l x' cs
      × SameOutside (ptrs cs) e e'
unfolding write_prev write_at
write_prev-Forward l [] x x' e b d = (e, refl, b, λ q h. refl)
write_prev-Forward l ((p, v) ∷ cs) x x' e (c, b) d =
    let changed = some (record { owner = l; value = v; prev = x'; next = first cs }) in
    (
      put p changed e,
      ap (write_at p (λ k. record k { prev = x' }) e) c,
      (
        put_same p changed e,
        Forward-frame l cs (some p)
            (λ q h. put_other p q changed e (not_self p q (ptrs cs) (ground arith) h)) b,
      ),
      λ q h. put_other p q changed e (ground arith),
    )

pub distinct-append :
    (xs ys : List Ptr) → distinct (xs ++ ys) ≡ true → (distinct xs ≡ true) × (distinct ys ≡ true)
distinct-append [] ys h = (refl, h)
distinct-append (x ∷ xs) ys h =
    let (a, b) = distinct-append xs ys (ground arith) in (ground (arith, has-append x xs ys), b)

pub distinct-apart :
    (xs ys : List Ptr) (q : Ptr) → distinct (xs ++ ys) ≡ true → has q xs ≡ true → has q ys ≡ false
distinct-apart [] ys q d h = cc
distinct-apart (x ∷ xs) ys q d h = elim (Bool-cases (has q xs)) [
  | inl k ↦ distinct-apart xs ys q (ground arith) k
  | inr k ↦
      subst (λ m. has m ys ≡ false) (sym ((==_iff q x).0 (ground arith)))
        (ground (arith, has-append x xs ys))
]

pub outside-append :
    (xs ys : List Ptr) (q : Ptr)
    → has q (xs ++ ys) ≡ false
    → (has q xs ≡ false) × (has q ys ≡ false)
outside-append xs ys q h = (ground (arith, has-append q xs ys), ground (arith, has-append q xs ys))

-- Both ends of a gap between two chains are set.
pub relink :
    (l : ListId) (front back : List Cell) (x y x' y' : Option Ptr) (e : Elems)
    → Backward e l x front
    → Forward e l y back
    → distinct (ptrs front ++ ptrs back) ≡ true
    → (e1 : Elems) × (e2 : Elems) × (write_next (first front) x' e ≡ some e1)
      × (write_prev (first back) y' e1 ≡ some e2)
      × Backward e2 l x' front
      × Forward e2 l y' back
      × SameOutside (ptrs front ++ ptrs back) e e2
relink l front back x y x' y' e b f d =
    let (df, db) = distinct-append (ptrs front) (ptrs back) d in
    let (e1, w1, b1, s1) = write_next-Backward l front x x' e b df in
    let f1 = Forward-frame l back y (λ q h. s1 q (apart_left q h)) f in
    let (e2, w2, f2, s2) = write_prev-Forward l back y y' e1 f1 db in
    (
      e1,
      e2,
      w1,
      w2,
      Backward-frame l front x' (λ q h. s2 q (distinct-apart (ptrs front) (ptrs back) q d h)) b1,
      f2,
      λ q h. let (hf, hb) = outside-append (ptrs front) (ptrs back) q h in s2 q hb ∙ s1 q hf,
    )
  where
    apart_left : (q : Ptr) → has q (ptrs back) ≡ true → has q (ptrs front) ≡ false
    apart_left q h = elim (Bool-cases (has q (ptrs front))) [
      | inl k ↦ ground (arith, distinct-apart (ptrs front) (ptrs back) q d k)
      | inr k ↦ k
    ]
