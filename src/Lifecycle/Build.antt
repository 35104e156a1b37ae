-- ===== src/Lifecycle/Build.antt =====
-- What the construction of an object does, without the recursion: the constructors run one after the
-- other along a list of classes, from its end to its head.
use itcl.Prelude.{
  ◌≡◌, refl, ap, ◌∙◌, sym, Bool, true, not, ◌&&◌, ◌||◌, Option, some, List, [], ◌∷◌, ◌++◌, map,
  arith, has, distinct, has-append,
}
use itcl.Classes.{ClassId}
use itcl.Lifecycle.{ClassName, Code, ok, Progress, Ran, ended, and_then}
use itcl.Lifecycle.Chains.{
  and_then_assoc, and_then-congr, and_then-ended, and_then-inv, ended-inj, run_own, run_own-Within,
  settle, settle-inv, Within,
}

pub has-map-append :
    (nm : ClassId → ClassName) (n : ClassName) (xs ys : List ClassId)
    → has n (map nm (xs ++ ys)) ≡ (has n (map nm xs) || has n (map nm ys))
has-map-append nm n [] ys = refl
has-map-append nm n (x ∷ xs) ys = ground (arith, has-map-append nm n xs ys)

module _ (nm : ClassId → ClassName) where
  -- No two classes of the list have one name, and none has a name of the table.
  unfoldable pub fresh : List ClassId → List ClassName → Bool
  fresh [] u = true
  fresh (c ∷ cs) u = not (has (nm c) (map nm cs) || has (nm c) u) && fresh cs u

  pub fresh-distinct : (cs : List ClassId) → distinct (map nm cs) ≡ true → fresh cs [] ≡ true
  unfolding fresh
  fresh-distinct [] h = refl
  fresh-distinct (c ∷ cs) h = ground (arith, fresh-distinct cs (ground arith))

  pub fresh-tail :
      (c : ClassId) (cs : List ClassId) (u : List ClassName)
      → fresh (c ∷ cs) u ≡ true
      → fresh cs u ≡ true
  unfolding fresh
  fresh-tail c cs u h = ground arith

  pub fresh-append :
      (xs ys : List ClassId) (u : List ClassName)
      → fresh (xs ++ ys) u ≡ true
      → (fresh ys u ≡ true) × (fresh xs (map nm ys ++ u) ≡ true)
  unfolding fresh
  fresh-append [] ys u h = (h, refl)
  fresh-append (x ∷ xs) ys u h =
      let (l, r) = fresh-append xs ys u (ground arith) in
      (l, ground (arith, r, has-map-append nm (nm x) xs ys, has-append (nm x) (map nm ys) u))

  module _ (runs : ClassId → Option Code) where
    -- An error leaves no table.
    unfoldable pub build_own : ClassId → Progress → Ran
    unfolding settle run_own
    build_own c p = settle (run_own (nm c) c (runs c) p)

    unfoldable pub build : List ClassId → Progress → Ran
    unfolding and_then build_own
    build [] p = ended ok p
    build (c ∷ cs) p = and_then (build cs p) (build_own c)

    pub build-append :
        (xs ys : List ClassId) (p : Progress)
        → build (xs ++ ys) p ≡ and_then (build ys p) (build xs)
    unfolding build
    build-append [] ys p = sym (
        and_then-congr (build ys p) (build []) (ended ok) (λ q e. refl)
        ∙ and_then-ended (build ys p))
    build-append (x ∷ xs) ys p =
        ap (λ r. and_then r (build_own x)) (build-append xs ys p)
        ∙ and_then_assoc (build ys p) (build xs) (build_own x)

    -- The table only gets names of the classes.
    pub build-Within :
        (cs : List ClassId) (p q : Progress) (t u : List ClassName)
        → build cs p ≡ ended ok q
        → p.table ≡ some t
        → Within t u
        → (v : List ClassName) × (q.table ≡ some v) × Within v (map nm cs ++ u)
    unfolding build build_own
    build-Within [] p q t u e h w = (t, ap (λ x. x.table) (sym (ended-inj e)) ∙ h, w)
    build-Within (c ∷ cs) p q t u e h w =
        let (m, first, last) = and_then-inv (build cs p) (build_own c) q e in
        let (v, g, z) = build-Within cs p m t u first h w in
        run_own-Within (nm c) c (runs c) m q v (map nm cs ++ u)
          (settle-inv (run_own (nm c) c (runs c) m) q last) g z
