-- ===== src/Lifecycle/Bodies.antt =====
-- Which bodies run along a list of classes, and in which order.
use mathlib.Core.List.{reverse_aux}
use itcl.Prelude.{
  ◌≡◌, refl, ap, ◌∙◌, Bool, true, false, ◌&&◌, Option, none, some, List, [], ◌∷◌, ◌++◌, arith,
}
use itcl.Classes.{ClassId}
use itcl.Lifecycle.{ClassName, Code, ok, error, Progress, ended, and_then, mark_name}
use itcl.Lifecycle.Chains.{run_own, settle}
use itcl.Lifecycle.Build.{build, build_own, build-append}
use itcl.Lifecycle.Raze.{raze, raze-append}

module _ (runs : ClassId → Option Code) where
  abbrev pub cons_body : Option Code → ClassId → List ClassId → List ClassId
  cons_body none c cs = cs
  cons_body (some r) c cs = c ∷ cs

  cons_body-append :
      (r : Option Code) (c : ClassId) (xs ys : List ClassId)
      → cons_body r c (xs ++ ys) ≡ cons_body r c xs ++ ys
  cons_body-append none c xs ys = refl
  cons_body-append (some r) c xs ys = refl

  reverse_aux-cons_body :
      (r : Option Code) (c : ClassId) (xs ys : List ClassId)
      → reverse_aux xs (cons_body r c ys) ≡ reverse_aux (cons_body r c xs) ys
  reverse_aux-cons_body none c xs ys = refl
  reverse_aux-cons_body (some r) c xs ys = refl

  -- The classes that have a body.
  abbrev pub bodies : List ClassId → List ClassId
  bodies [] = []
  bodies (c ∷ cs) = cons_body (runs c) c (bodies cs)

  abbrev pub succeeds : Option Code → Bool
  succeeds none = true
  succeeds (some ok) = true
  succeeds (some error) = false

  -- No body of the list fails.
  abbrev pub all_succeed : List ClassId → Bool
  all_succeed [] = true
  all_succeed (c ∷ cs) = succeeds (runs c) && all_succeed cs

  module _ (nm : ClassId → ClassName) where
    own-succeeds :
        (n : ClassName) (c : ClassId) (r : Option Code) (p : Progress)
        → succeeds r ≡ true
        → (q : Progress) × (run_own n c r p ≡ ended ok q) × (q.ran ≡ cons_body r c p.ran)
    unfolding run_own
    own-succeeds n c none p h = (p, refl, refl)
    own-succeeds n c (some ok) p h =
        (record { table = mark_name n p.table; ran = c ∷ p.ran }, refl, refl)
    own-succeeds n c (some error) p h = cc

    -- The last body is the one of the head.
    pub build-succeeds :
        (cs : List ClassId) (p : Progress)
        → all_succeed cs ≡ true
        → (q : Progress) × (build nm runs cs p ≡ ended ok q) × (q.ran ≡ bodies cs ++ p.ran)
    unfolding build build_own and_then settle
    build-succeeds [] p h = (p, refl, refl)
    build-succeeds (c ∷ cs) p h =
        let (m, em, rm) = build-succeeds cs p (ground arith) in
        let (q, eq, rq) = own-succeeds (nm c) c (runs c) m (ground arith) in
        (
          q,
          ap (λ r. and_then r (build_own nm runs c)) em ∙ ap settle eq,
          rq ∙ ap (cons_body (runs c) c) rm ∙ cons_body-append (runs c) c (bodies cs) p.ran,
        )

    -- The last body is the one of the end of the list.
    pub raze-succeeds :
        (cs : List ClassId) (p : Progress)
        → all_succeed cs ≡ true
        → (q : Progress) × (raze nm runs cs p ≡ ended ok q)
          × (q.ran ≡ reverse_aux (bodies cs) p.ran)
    unfolding raze and_then
    raze-succeeds [] p h = (p, refl, refl)
    raze-succeeds (c ∷ cs) p h =
        let (m, em, rm) = own-succeeds (nm c) c (runs c) p (ground arith) in
        let (q, eq, rq) = raze-succeeds cs m (ground arith) in
        (
          q,
          ap (λ r. and_then r (raze nm runs cs)) em ∙ eq,
          rq ∙ ap (reverse_aux (bodies cs)) rm ∙ reverse_aux-cons_body (runs c) c (bodies cs) p.ran,
        )

    own-fails :
        (n : ClassName) (c : ClassId) (r : Option Code) (p : Progress)
        → r ≡ some error
        → (q : Progress) × (run_own n c r p ≡ ended error q) × (q.ran ≡ c ∷ p.ran)
    unfolding run_own
    own-fails n c none p h = cc
    own-fails n c (some ok) p h = cc
    own-fails n c (some error) p h =
        (record { table = mark_name n p.table; ran = c ∷ p.ran }, refl, refl)

    pub build-fails :
        (later earlier : List ClassId) (c : ClassId) (p : Progress)
        → all_succeed earlier ≡ true
        → runs c ≡ some error
        → build nm runs (later ++ c ∷ earlier) p
          ≡ ended error (record { table = none; ran = c ∷ bodies earlier ++ p.ran })
    unfolding build build_own and_then settle
    build-fails later earlier c p h f =
        let (m, em, rm) = build-succeeds earlier p h in
        let (q, eq, rq) = own-fails (nm c) c (runs c) m f in
        build-append nm runs later (c ∷ earlier) p
        ∙ ap (λ r. and_then (and_then r (build_own nm runs c)) (build nm runs later)) em
        ∙ ap (λ r. and_then (settle r) (build nm runs later)) eq
        ∙ ap (λ xs. ended error (record { table = none; ran = xs })) (rq ∙ ap (λ xs. c ∷ xs) rm)

    pub raze-fails :
        (earlier later : List ClassId) (c : ClassId) (p : Progress)
        → all_succeed earlier ≡ true
        → runs c ≡ some error
        → (q : Progress) × (raze nm runs (earlier ++ c ∷ later) p ≡ ended error q)
          × (q.ran ≡ c ∷ reverse_aux (bodies earlier) p.ran)
    unfolding raze and_then
    raze-fails earlier later c p h f =
        let (m, em, rm) = raze-succeeds earlier p h in
        let (q, eq, rq) = own-fails (nm c) c (runs c) m f in
        (
          q,
          raze-append nm runs earlier (c ∷ later) p
              ∙ ap (λ r. and_then r (raze nm runs (c ∷ later))) em
              ∙ ap (λ r. and_then r (raze nm runs later)) eq,
          rq ∙ ap (λ xs. c ∷ xs) rm,
        )
