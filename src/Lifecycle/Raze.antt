-- ===== src/Lifecycle/Raze.antt =====
-- What the destruction of an object does, without the recursion: the destructors run one after the
-- other along a list of classes, from its head to its end.
use itcl.Prelude.{
  ◌≡◌, refl, ap, ◌∙◌, sym, true, false, Option, some, List, [], ◌∷◌, ◌++◌, map, arith, has,
  has-append,
}
use itcl.Classes.{ClassId}
use itcl.Lifecycle.{ClassName, Code, ok, Progress, Ran, ended, and_then}
use itcl.Lifecycle.Chains.{
  and_then_assoc, and_then-congr, and_then-inv, ended-inj, run_own, run_own-Within, Within,
}
use itcl.Lifecycle.Build.{fresh, has-map-append}

module _ (nm : ClassId → ClassName) where
  pub fresh-cons :
      (n : ClassName) (cs : List ClassId) (u : List ClassName)
      → has n (map nm cs) ≡ false
      → fresh nm cs u ≡ true
      → fresh nm cs (n ∷ u) ≡ true
  unfolding fresh
  fresh-cons n [] u a h = refl
  fresh-cons n (c ∷ cs) u a h = ground (arith, fresh-cons n cs u (ground arith) (ground arith))

  -- What comes later is fresh after what comes before.
  pub fresh-later :
      (xs ys : List ClassId) (u : List ClassName)
      → fresh nm (xs ++ ys) u ≡ true
      → (fresh nm xs u ≡ true) × (fresh nm ys (map nm xs ++ u) ≡ true)
  unfolding fresh
  fresh-later [] ys u h = (refl, h)
  fresh-later (x ∷ xs) ys u h =
      let (l, r) = fresh-later xs ys u (ground arith) in
      (
        ground (arith, l, has-map-append nm (nm x) xs ys),
        fresh-cons (nm x) ys (map nm xs ++ u) (ground (arith, has-map-append nm (nm x) xs ys)) r,
      )

  module _ (runs : ClassId → Option Code) where
    unfoldable pub raze : List ClassId → Progress → Ran
    unfolding and_then run_own
    raze [] p = ended ok p
    raze (c ∷ cs) p = and_then (run_own (nm c) c (runs c) p) (raze cs)

    pub raze-append :
        (xs ys : List ClassId) (p : Progress) → raze (xs ++ ys) p ≡ and_then (raze xs p) (raze ys)
    unfolding raze
    raze-append [] ys p = refl
    raze-append (x ∷ xs) ys p =
        and_then-congr (run_own (nm x) x (runs x) p) (raze (xs ++ ys))
          (λ q. and_then (raze xs q) (raze ys)) (λ q e. raze-append xs ys q)
        ∙ sym (and_then_assoc (run_own (nm x) x (runs x) p) (raze xs) (raze ys))

    pub raze-Within :
        (cs : List ClassId) (p q : Progress) (t u : List ClassName)
        → raze cs p ≡ ended ok q
        → p.table ≡ some t
        → Within t u
        → (v : List ClassName) × (q.table ≡ some v) × Within v (map nm cs ++ u)
    unfolding raze
    raze-Within [] p q t u e h w = (t, ap (λ x. x.table) (sym (ended-inj e)) ∙ h, w)
    raze-Within (c ∷ cs) p q t u e h w =
        let (m, first, last) = and_then-inv (run_own (nm c) c (runs c) p) (raze cs) q e in
        let (v, g, z) = run_own-Within (nm c) c (runs c) p m t u first h w in
        let (v', g', z') = raze-Within cs m q v (nm c ∷ u) last g z in
        (
          v',
          g',
          λ n k.
              ground
                (arith, z' n k, has-append n (map nm cs) (nm c ∷ u), has-append n (map nm cs) u),
        )
