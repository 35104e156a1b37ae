-- ===== src/Access/Rules.antt =====
-- Who may access a member, in terms of the hierarchy.
use itcl.Prelude.{
  ℕ, Bool, ◌||◌, if◌then◌else◌, ap, Option, ◌<◌, ◌≡◌, ◌↔◌, refl, sym, ◌∙◌, ◌⊎◌, inl, inr, true,
  false, none, some, [], ◌∷◌, arith, ◌==◌, Option-cases, has,
}
use itcl.Classes.{
  ClassId, NsId, MemberFunc, find_entry, Info, bases_of, itcl_public, itcl_protected, itcl_private,
}
use itcl.Hierarchy.Order.{Preorder, IsA, IsA-Preorder, Preorder-IsA}
use itcl.Access.{can_access2, can_access, can_access_func}

-- The heritage of `c` is the order of its hierarchy, as `inherit` leaves it.
pub record HasHeritage (i : Info) (c : ClassId) : Type 0 where
  pub order : Preorder (bases_of i) (c ∷ []) (i.classes c).heritage

module _ {i : Info} {c d : ClassId} (h : HasHeritage i c) where
  -- A heritage table answers the question whether one class inherits from another.
  pub has-heritage-IsA : (has d (i.classes c).heritage ≡ true) ↔ IsA (bases_of i) d c
  has-heritage-IsA = (to, λ a. IsA-Preorder h.order (ground arith) a)
    where
      only : (k : ClassId) → has k (c ∷ []) ≡ true → k ≡ c
      only k e = ground arith

      to : has d (i.classes c).heritage ≡ true → IsA (bases_of i) d c
      to e = let (k, one, a) = Preorder-IsA h.order e in rw (only k one) at a

some-inj : {a b : Bool} → some a ≡ some b → a ≡ b
some-inj e = cc

-- The protection levels of members.
abbrev pub is_level : ℕ → Bool
is_level p = p == itcl_public || p == itcl_protected || p == itcl_private

module _ (i : Info) (icls from : ClassId) (ns : NsId) (asks : i.namespace_classes ns ≡ some from)
    (h : HasHeritage i from) where
  -- From the namespace of a class whose heritage is the order of its hierarchy: a public member is
  -- accessible, a private one exactly from its own class, and a protected one exactly from its class
  -- and the classes that inherit from it.
  pub can_access2-class :
      (can_access2 i icls itcl_public ns ≡ some true)
      × ((can_access2 i icls itcl_private ns ≡ some true) ↔ (icls ≡ from))
      × ((can_access2 i icls itcl_protected ns ≡ some true) ↔ IsA (bases_of i) icls from)
  unfolding can_access2
  can_access2-class = (
    refl,
    (λ e. ground (arith, asks), λ e. ground (arith, asks)),
    (
      λ e. (has-heritage-IsA h).0 (some-inj (sym protected ∙ e)),
      λ a. protected ∙ ap some ((has-heritage-IsA h).1 a),
    ),
  )
    where
      protected : can_access2 i icls itcl_protected ns ≡ some (has icls (i.classes from).heritage)
      protected = ground (arith, asks)

-- From a namespace that is no class, only public members are accessible; for a protection level that
-- is none of the three, the assertion fails.
pub can_access_func-outside :
    (i : Info) (im : MemberFunc) (ns : NsId)
    → i.namespace_classes ns ≡ none
    → can_access_func i im ns
      ≡ (if is_level im.protection then some (im.protection == itcl_public) else none)
unfolding can_access_func
can_access_func-outside i im ns e = ground (arith, e)

-- The class `from` resolves the name of `im` to a function that is neither a proc nor private.
abbrev pub Overridden : Info → MemberFunc → ClassId → Type 0
Overridden i im from =
    (ovl : MemberFunc) × (find_entry im.name (i.classes from).resolve_cmds ≡ some ovl)
    × (ovl.common ≡ false)
    × (ovl.protection < itcl_private)

module _ (i : Info) (im : MemberFunc) (ns : NsId) where
  can_access_func-direct : can_access i im ns ≡ some true → can_access_func i im ns ≡ some true
  unfolding can_access_func
  can_access_func-direct e = rw (e, can_access_func)

  can_access_func-none : can_access i im ns ≡ none → can_access_func i im ns ≡ some true → ⊥
  unfolding can_access_func
  can_access_func-none failed e = clash (rw failed at e)
    where
      clash : (◌≡◌ {A = Option Bool} none (some true)) → ⊥
      clash e = cc

  can_access-cases :
      (can_access i im ns ≡ some true)
      ⊎ (((is_level im.protection ≡ true) × (can_access i im ns ≡ some false))
          ⊎ (can_access i im ns ≡ none))
  unfolding can_access
  can_access-cases =
      by_level (im.protection == itcl_public) (im.protection == itcl_private)
        (im.protection == itcl_protected) _ _
    where
      by_level :
          (p q r a b : Bool)
          → let x = if p then some true else if q then some a else if r then some b else none in
            (x ≡ some true) ⊎ ((((p || r || q) ≡ true) × (x ≡ some false)) ⊎ (x ≡ none))
      by_level true q r a b = inl refl
      by_level false true r true b = inl refl
      by_level false true true false b = inr (inl (refl, refl))
      by_level false true false false b = inr (inl (refl, refl))
      by_level false false true a true = inl refl
      by_level false false true a false = inr (inl (refl, refl))
      by_level false false false a b = inr (inr refl)

  module _ (from : ClassId) (asks : i.namespace_classes ns ≡ some from) where
    can_access_func-last :
        can_access i im ns ≡ some false
        → can_access_func i im ns ≡ some true
        → (im.common ≡ false)
          × (has from (i.classes im.icls).heritage ≡ true)
          × Overridden i im from
    unfolding can_access_func
    can_access_func-last refused e =
        elim (Option-cases (find_entry im.name (i.classes from).resolve_cmds)) [
          | inl missing ↦ absurd (denied e missing)
          | inr (ovl, found) ↦ (
            ground (arith, refused, asks, e),
            ground (arith, refused, asks, e),
            (ovl, found, ground (arith, refused, asks, e), ground (arith, refused, asks, e)),
          )
        ]
      where
        denied :
            can_access_func i im ns ≡ some true
            → find_entry im.name (i.classes from).resolve_cmds ≡ none
            → ⊥
        denied a b = ground (arith, refused, asks)

    can_access_func-override :
        is_level im.protection ≡ true
        → im.common ≡ false
        → has from (i.classes im.icls).heritage ≡ true
        → Overridden i im from
        → can_access_func i im ns ≡ some true
    unfolding can_access_func
    can_access_func-override level method above (ovl, found, plain, open_level) =
        ground (arith, asks, level, method, above, found, plain, open_level)

-- Where the heritage of the function's class is the order of its hierarchy, there is one exception to
-- the rules of `can_access`: a function that is no proc and has one of the three protection levels is
-- also accessible from its class and those that this inherits from, where the one that asks resolves
-- the name to a function that is neither a proc nor private. Which of the levels the function has
-- plays no part.
pub can_access_func-exact :
    (i : Info) (im : MemberFunc) (ns : NsId) (from : ClassId)
    → i.namespace_classes ns ≡ some from
    → HasHeritage i im.icls
    → (can_access_func i im ns ≡ some true) ↔ (
        (can_access i im ns ≡ some true)
        ⊎ ((is_level im.protection ≡ true)
            × (im.common ≡ false)
            × IsA (bases_of i) from im.icls
            × Overridden i im from))
can_access_func-exact i im ns from asks h = (
  λ e. elim (can_access-cases i im ns) [
    | inl direct ↦ inl direct
    | inr (inl (level, refused)) ↦
        let (method, inside, ovl) = can_access_func-last i im ns from asks refused e in
        inr (level, method, (has-heritage-IsA h).0 inside, ovl)
    | inr (inr failed) ↦ absurd (can_access_func-none i im ns failed e)
  ],
  elim [
    | inl direct ↦ can_access_func-direct i im ns direct
    | inr (level, method, above, ovl) ↦
        can_access_func-override i im ns from asks level method ((has-heritage-IsA h).1 above) ovl
  ],
)
