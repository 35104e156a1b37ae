-- ===== src/Inherit/Accepts.antt =====
-- The `inherit` command where no class is reached twice.
use mathlib.Core.Path.{subst}
use mathlib.Core.List.{append-nil}
use itcl.Prelude.{
  ℕ, suc, ◌<◌, ◌≡◌, sym, ap, ◌∙◌, inl, inr, Bool, true, false, none, some, List, [], ◌∷◌, ◌++◌,
  arith, ◌==◌, ==_refl, ==_iff, Bool-cases, if◌then◌else◌, length, has, distinct, has-append,
}
use itcl.Prelude.Bytes.{Bytes}
use itcl.Classes.{ClassId, Info, update, bases_of}
use itcl.Hierarchy.{done}
use itcl.Hierarchy.Order.{Preorder, IsA-Preorder}
use itcl.Hierarchy.Order
use itcl.Hierarchy.Iteration.{Visits, Visits-Preorder, walk_ancestors-go}
use itcl.Tables.Build.{rebuilt, build-rebuilt, bases-rebuilt, heritage-rebuilt, derived-rebuilt}
use itcl.Inherit.{
  InheritError, Status, code, error, Interp, enter, find_twice, add_derived, add_bases, scan,
  check_bases, inherit_into, class_inherit_cmd,
}
use itcl.Inherit.State.{
  Names, heritage_of, derived_of, add_base_all, bases-add_base_all, bases-add_base_all_other,
  heritage-add_base_all, bases-add_derived, heritage-add_derived, derived-add_derived,
  add_bases-Names,
}
use itcl.Inherit.Scan.{distinct-fresh, distinct-Preorder, find_twice-distinct, scan-fresh}

-- The order depends on the bases of the classes in it alone.
pub Preorder-ext :
    {old new : ClassId → List ClassId} {cs out : List ClassId}
    → Preorder old cs out
    → ((c : ClassId) → has c out ≡ true → new c ≡ old c)
    → Preorder new cs out
Preorder-ext Order.Preorder.none same = Order.Preorder.none
Preorder-ext {old} {new} (Order.Preorder.one {c} {cs} {below} {rest} p q e) same =
    let kept : (d : ClassId) → has d (c ∷ below ++ rest) ≡ true → new d ≡ old d =
      λ d h. same d (ap (has d) e ∙ h) in
    Order.Preorder.one
      (subst (λ bs. Preorder new bs below) (sym (kept c (ground arith)))
        (Preorder-ext p (λ d h. kept d (ground (arith, has-append d below rest)))))
      (Preorder-ext q (λ d h. kept d (ground (arith, has-append d below rest)))) e

-- The state after a successful `inherit`: `bs` are the bases of `icls`, and `out` its ancestors.
pub record Inherited (i i' : Info) (icls : ClassId) (bs out : List ClassId) : Type 0 where
  pub bases : bases_of i' icls ≡ bs
  pub heritage : heritage_of i' icls ≡ icls ∷ out
  pub order : Preorder (bases_of i') (icls ∷ []) (icls ∷ out)
  pub derived : (b : ClassId) → has b bs ≡ true → has icls (derived_of i' b) ≡ true
  pub other_bases : (d : ClassId) → (d == icls) ≡ false → bases_of i' d ≡ bases_of i d
  pub other_heritage : (d : ClassId) → (d == icls) ≡ false → heritage_of i' d ≡ heritage_of i d

module _ (icls : ClassId) (i : Info) (bs out : List ClassId) where
  -- The state after each part of the command.
  abbrev with_bases : Info
  with_bases = add_base_all icls bs i

  abbrev with_heritage : Info
  with_heritage = update with_bases icls (λ k. record k { heritage = icls ∷ out })

  abbrev with_derived : Info
  with_derived = add_derived icls (bases_of with_heritage icls) with_heritage

  pub inherited : Info
  inherited = rebuilt with_derived icls (icls ∷ out)

  bases-with_heritage : (d : ClassId) → bases_of with_heritage d ≡ bases_of with_bases d
  unfolding update
  bases-with_heritage d = ground arith

  bases-with_derived : (d : ClassId) → bases_of with_derived d ≡ bases_of with_bases d
  bases-with_derived d =
      bases-add_derived icls (bases_of with_heritage icls) with_heritage d ∙ bases-with_heritage d

  heritage-with_derived :
      (d : ClassId)
      → heritage_of with_derived d ≡ (if d == icls then icls ∷ out else heritage_of with_bases d)
  unfolding update
  heritage-with_derived d =
      heritage-add_derived icls (bases_of with_heritage icls) with_heritage d ∙ ground arith

  module _ (none_before : bases_of i icls ≡ []) where
    bases-listed : bases_of with_heritage icls ≡ bs
    bases-listed =
        bases-with_heritage icls ∙ bases-add_base_all icls bs i ∙ ap (λ xs. xs ++ bs) none_before

    bases-icls : bases_of with_derived icls ≡ bs
    bases-icls = bases-with_derived icls ∙ bases-add_base_all icls bs i ∙ rw none_before

    bases-other : (d : ClassId) → (d == icls) ≡ false → bases_of with_derived d ≡ bases_of i d
    bases-other d ne = bases-with_derived d ∙ bases-add_base_all_other icls bs i d ne

  module _ (none_before : bases_of i icls ≡ []) (p : Preorder (bases_of i) bs out)
      (once : distinct (icls ∷ out) ≡ true) where
    order-with_derived : Preorder (bases_of with_derived) (icls ∷ []) (icls ∷ out)
    order-with_derived =
        Order.Preorder.one
          (subst (λ cs. Preorder (bases_of with_derived) cs out) (sym (bases-icls none_before))
            (Preorder-ext p (λ c h. bases-other none_before c (other c h))))
          Order.Preorder.none (ap (λ xs. icls ∷ xs) (sym (append-nil out)))
      where
        other : (c : ClassId) → has c out ≡ true → (c == icls) ≡ false
        other c h = elim (Bool-cases (c == icls)) [
          | inl e ↦ absurd (clash (ap (λ x. has x out) (sym ((==_iff c icls).0 e)) ∙ h))
          | inr ne ↦ ne
        ]
          where
            clash : has icls out ≡ true → ⊥
            clash h' = ground arith

    inherited-Inherited : Inherited i inherited icls bs out
    unfolding inherited
    inherited-Inherited = record {
      bases = bases-rebuilt with_derived icls (icls ∷ out) icls ∙ bases-icls none_before;
      heritage =
          heritage-rebuilt with_derived icls (icls ∷ out) icls
          ∙ heritage-with_derived icls
          ∙ rw (==_refl icls);
      order =
          Preorder-ext order-with_derived (λ c h. bases-rebuilt with_derived icls (icls ∷ out) c);
      derived = λ b h.
          ap (has icls) (derived-rebuilt with_derived icls (icls ∷ out) b)
          ∙ derived-add_derived icls (bases_of with_heritage icls) with_heritage b
              (ap (has b) (bases-listed none_before) ∙ h);
      other_bases =
          λ d ne. bases-rebuilt with_derived icls (icls ∷ out) d ∙ bases-other none_before d ne;
      other_heritage = λ d ne.
          heritage-rebuilt with_derived icls (icls ∷ out) d
          ∙ heritage-with_derived d
          ∙ rw ne (heritage-add_base_all icls bs i d);
    }

module _ (interp : Interp) (fuel : ℕ) (icls : ClassId) (i : Info) where
  pub opens_frame :
      (ts : List Bytes)
      → interp.push_call_frame ≡ true
      → bases_of i icls ≡ []
      → inherit_into interp fuel icls ts i (bases_of i icls)
        ≡ check_bases interp fuel icls (add_bases interp fuel icls ts i)
  unfolding inherit_into
  opens_frame ts frame none_before =
      ap (inherit_into interp fuel icls ts i) none_before
      ∙ ap
          (λ (b : Bool).
            if b
            then check_bases interp fuel icls (add_bases interp fuel icls ts i)
            else done (i, error InheritError.frame_failed))
          frame

  pub check_bases-once :
      find_twice (bases_of i icls) ≡ none
      → check_bases interp fuel icls (i, none) ≡ scan interp fuel icls i
  unfolding check_bases
  check_bases-once e = rw (e, check_bases)

-- The hypotheses on a class that may inherit from `bs`: it has no bases yet and stands alone in its
-- heritage, and the hierarchies of `bs` end, with the classes `out`.
pub record IsReady (i : Info) (icls : ClassId) (bs out : List ClassId) : Type 0 where
  pub no_bases : bases_of i icls ≡ []
  pub alone : heritage_of i icls ≡ icls ∷ []
  pub ancestors : Preorder (bases_of i) bs out

module _ (interp : Interp) (fuel : ℕ) (icls : ClassId) (i : Info) (bs out : List ClassId)
    (ready : IsReady i icls bs out) (once : distinct (icls ∷ out) ≡ true)
    (enough : suc (length out) < fuel) where
  open interp use {superclass}

  scan-accepts :
      scan interp fuel icls (with_bases icls i bs out)
      ≡ done (inherited icls i bs out, code (superclass icls bs))
  unfolding scan inherited
  scan-accepts =
      let new = bases_of (with_bases icls i bs out) in
      let listed : new icls ≡ bs =
        bases-add_base_all icls bs i ∙ ap (λ xs. xs ++ bs) ready.no_bases in
      let (v, e) =
        scan-fresh (bases_of i) new icls (bases-add_base_all_other icls bs i) (icls ∷ []) none
          (Visits-Preorder (bases_of i) [] ready.ancestors) (ground arith)
          (sym (distinct-fresh icls out) ∙ once) in
      rw
        (
          heritage-add_base_all icls bs i icls ∙ ready.alone,
          walk_ancestors-go new enter fuel icls _ _
              (subst (λ cs. Visits new (cs ++ []) out []) (sym listed) v) (omega arith) e,
        )
        (rw
          (build-rebuilt (with_derived icls i bs out) fuel icls
            (order-with_derived icls i bs out ready.no_bases ready.ancestors once) enough)
          (ap
            (λ xs.
              let r : Info × Status = (inherited icls i bs out, code (superclass icls xs)) in
              done r)
            (bases-listed icls i bs out ready.no_bases)))

  -- On a class that has no bases and stands alone in its heritage table, with words that name classes
  -- whose hierarchies end, where the call frame can be pushed, a walk over the hierarchy gets at least
  -- two rounds more than there are ancestors, and no class is reached twice, `inherit` runs to its end and returns what the script of the superclasses returns: the bases are set, the
  -- heritage is the class and its ancestors in depth-first order, each base knows the class as derived,
  -- and the bases and heritage of no other class change.
  pub class_inherit_cmd-accepts :
      (t : Bytes) (ts : List Bytes)
      → interp.push_call_frame ≡ true
      → Names interp.find_class (t ∷ ts) bs
      → (i' : Info) × (class_inherit_cmd interp fuel (some icls) (t ∷ ts) i
          ≡ done (i', code (superclass icls bs)))
        × Inherited i i' icls bs out
  unfolding class_inherit_cmd
  class_inherit_cmd-accepts t ts frame named =
      let listed : bases_of (with_bases icls i bs out) icls ≡ bs =
        bases-add_base_all icls bs i ∙ ap (λ xs. xs ++ bs) ready.no_bases in
      let apart : distinct bs ≡ true = distinct-Preorder ready.ancestors (tail once) in
      (
        inherited icls i bs out,
        opens_frame interp fuel icls i (t ∷ ts) frame ready.no_bases
            ∙ ap (check_bases interp fuel icls)
                (add_bases-Names interp fuel icls (t ∷ ts) bs i named not_base)
            ∙ check_bases-once interp fuel icls (with_bases icls i bs out)
                (ap find_twice listed ∙ find_twice-distinct bs apart)
            ∙ scan-accepts,
        inherited-Inherited icls i bs out ready.no_bases ready.ancestors once,
      )
    where
      tail : distinct (icls ∷ out) ≡ true → distinct out ≡ true
      tail h = ground arith

      clash : has icls out ≡ true → distinct (icls ∷ out) ≡ true → ⊥
      clash a b = ground arith

      not_base : has icls bs ≡ false
      not_base = elim (Bool-cases (has icls bs)) [
        | inl h ↦ absurd (clash (IsA-Preorder ready.ancestors h Order.IsA.self) once)
        | inr h ↦ h
      ]
