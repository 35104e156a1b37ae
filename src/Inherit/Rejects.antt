-- ===== src/Inherit/Rejects.antt =====
-- The `inherit` command where some class is reached twice, by a repeated base, by two paths, or by a
-- cycle through the class itself.
use mathlib.Core.Path.{subst}
use itcl.Prelude.{
  ℕ, suc, ◌<◌, ◌≡◌, refl, sym, ap, ◌∙◌, inl, inr, true, false, none, some, List, [], ◌∷◌, ◌++◌,
  arith, ◌==◌, Bool-cases, Option-cases, length, has, distinct,
}
use itcl.Prelude.Bytes.{Bytes}
use itcl.Classes.{ClassId, Info, update, bases_of}
use itcl.Hierarchy.{Walk, done}
use itcl.Hierarchy.Iteration.{Visits-Preorder, walk_ancestors-halt}
use itcl.Inherit.{
  InheritError, Status, error, Interp, enter, find_twice, tear_down, add_bases, scan, check_bases,
  class_inherit_cmd, add_base,
}
use itcl.Inherit.State.{
  Names, add_base_all, bases-add_base_all, bases-add_base_all_other, heritage-add_base_all,
  add_bases-Names,
}
use itcl.Inherit.Scan.{Stops, distinct-fresh, scan-repeated}
use itcl.Inherit.Accepts.{IsReady, opens_frame, check_bases-once}

-- The command failed, the error is `e`, and the class has no bases.
pub record Failed (icls : ClassId) (e : InheritError) (r : Walk (Info × Status)) : Type 0 where
  pub left : Info
  pub failed : r ≡ done (left, error e)
  pub no_bases : bases_of left icls ≡ []

module _ (interp : Interp) (fuel : ℕ) (icls : ClassId) where
  pub bases-tear_down : (i : Info) → bases_of (tear_down icls i) icls ≡ []
  unfolding tear_down
  bases-tear_down i = ground arith

  fails :
      (e : InheritError) (i : Info) {r : Walk (Info × Status)}
      → r ≡ done (tear_down icls i, error e)
      → Failed icls e r
  fails e i h = record { left = tear_down icls i; failed = h; no_bases = bases-tear_down i }

  -- The loop over the words stops at the class itself.
  add_bases-itself :
      (ts : List Bytes) (bs : List ClassId) (i : Info)
      → Names interp.find_class ts bs
      → has icls bs ≡ true
      → (j : Info) × (add_bases interp fuel icls ts i ≡ (j, some InheritError.itself))
  unfolding add_bases
  add_bases-itself [] [] i n h = absurd (clash h)
    where
      clash : false ≡ true → ⊥
      clash e = cc
  add_bases-itself [] (b ∷ bs) i n h = absurd n
  add_bases-itself (t ∷ ts) [] i n h = absurd n
  add_bases-itself (t ∷ ts) (b ∷ bs) i n h = elim (Bool-cases (b == icls)) [
    | inl e ↦ (i, rw (n.0, e))
    | inr ne ↦
        let (j, r) = add_bases-itself ts bs (add_base icls b i) n.1 (ground arith) in
        (j, rw (n.0, ne) r)
  ]

  check_bases-twice :
      (i : Info) (c : ClassId)
      → find_twice (bases_of i icls) ≡ some c
      → check_bases interp fuel icls (i, none)
        ≡ done (tear_down icls i, error (InheritError.base_twice c))
  unfolding check_bases
  check_bases-twice i c e = rw (e, check_bases)

  -- The heritage of the class at the end of a scan that stops.
  abbrev pub with_seen : Info → List ClassId → Info
  with_seen i seen = update i icls (λ k. record k { heritage = seen })

  module _ (i : Info) (bs out : List ClassId) (ready : IsReady i icls bs out)
      (twice : distinct (icls ∷ out) ≡ false) (enough : suc (length out) < fuel) where
    pub scan-rejects :
        let j = add_base_all icls bs i in
        let s = Stops (bases_of j) (icls ∷ []) none (bases_of j icls ++ []) out in
        (stops : s) × (scan interp fuel icls j
          ≡ done (
            tear_down icls (with_seen j ((icls ∷ []) ++ stops.more)),
            error (InheritError.inherited_twice stops.again),
          ))
    unfolding scan
    scan-rejects =
        let new = bases_of (add_base_all icls bs i) in
        let listed : new icls ≡ bs =
          bases-add_base_all icls bs i ∙ ap (λ xs. xs ++ bs) ready.no_bases in
        let stops =
          subst (λ cs. Stops new (icls ∷ []) none (cs ++ []) out) (sym listed)
            (scan-repeated (bases_of i) new icls (bases-add_base_all_other icls bs i) (icls ∷ [])
              none (Visits-Preorder (bases_of i) [] ready.ancestors) (ground arith)
              (sym (distinct-fresh icls out) ∙ twice)) in
        (
          stops,
          rw (
            heritage-add_base_all icls bs i icls ∙ ready.alone,
            walk_ancestors-halt new enter fuel icls _ _ stops.visits (omega (arith, stops.short))
                stops.stopped,
          ),
        )

    -- On a class that has no bases and stands alone in its heritage table, with words that name
    -- classes whose hierarchies end, where the call frame can be pushed and a walk over the hierarchy
    -- gets at least two rounds more than there are ancestors, `inherit` fails if some class is reached twice, also if that closes a cycle, and leaves the class without bases.
    pub class_inherit_cmd-rejects :
        (t : Bytes) (ts : List Bytes)
        → interp.push_call_frame ≡ true
        → Names interp.find_class (t ∷ ts) bs
        → (e : InheritError) × Failed icls e (class_inherit_cmd interp fuel (some icls) (t ∷ ts) i)
    unfolding class_inherit_cmd
    class_inherit_cmd-rejects t ts frame named =
        let opened = opens_frame interp fuel icls i (t ∷ ts) frame ready.no_bases in
        elim (Bool-cases (has icls bs)) [
          | inl own ↦
              let (j, r) = add_bases-itself (t ∷ ts) bs i named own in
              (
                InheritError.itself,
                fails InheritError.itself j
                    (opened ∙ ap (check_bases interp fuel icls) r ∙ failed_at j),
              )
          | inr other ↦
              let j = add_base_all icls bs i in
              let looped =
                opened
                ∙ ap (check_bases interp fuel icls)
                    (add_bases-Names interp fuel icls (t ∷ ts) bs i named other) in
              elim (Option-cases (find_twice (bases_of j icls))) [
                | inl once ↦
                    let (stops, r) = scan-rejects in
                    (
                      InheritError.inherited_twice stops.again,
                      fails (InheritError.inherited_twice stops.again)
                          (with_seen j ((icls ∷ []) ++ stops.more))
                          (looped ∙ check_bases-once interp fuel icls j once ∙ r),
                    )
                | inr (c, again) ↦ (
                  InheritError.base_twice c,
                  fails (InheritError.base_twice c) j (looped ∙ check_bases-twice j c again),
                )
              ]
        ]
      where
        failed_at :
            (j : Info)
            → check_bases interp fuel icls (j, some InheritError.itself)
              ≡ done (tear_down icls j, error InheritError.itself)
        failed_at j = unfold check_bases in refl
