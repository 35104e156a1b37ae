-- ===== src/Inherit/State.antt =====
-- What the parts of `inherit` leave alone, and what they write.
use mathlib.Core.List.{append_assoc, append-nil}
use itcl.Prelude.{
  ℕ, ◌≡◌, refl, sym, ap, ◌∙◌, inl, inr, Bool-cases, true, false, Option, none, some, List, [], ◌∷◌,
  ◌++◌, arith, ◌==◌, ==_refl, ==_iff, if◌then◌else◌, has, has-append,
}
use itcl.Prelude.Bytes.{Bytes}
use itcl.Classes.{ClassId, Info, bases_of}
use itcl.Inherit.{Interp, add_base, add_bases, add_derived, derive_from}

-- The words of the command name these classes, in order.
abbrev pub Names : (Bytes → Option ClassId) → List Bytes → List ClassId → Type 0
Names find [] [] = Unit
Names find (t ∷ ts) (b ∷ bs) = (find t ≡ some b) × Names find ts bs
Names find _ _ = ⊥

abbrev pub heritage_of : Info → ClassId → List ClassId
heritage_of i c = (i.classes c).heritage

abbrev pub derived_of : Info → ClassId → List ClassId
derived_of i c = (i.classes c).derived

module _ (icls b : ClassId) (i : Info) where
  bases-add_base :
      (d : ClassId)
      → bases_of (add_base icls b i) d
        ≡ (if d == icls then bases_of i icls ++ b ∷ [] else bases_of i d)
  unfolding add_base
  bases-add_base d = ground arith

  heritage-add_base : (d : ClassId) → heritage_of (add_base icls b i) d ≡ heritage_of i d
  unfolding add_base
  heritage-add_base d = ground arith

pub add_base_all : ClassId → List ClassId → Info → Info
add_base_all icls [] i = i
add_base_all icls (b ∷ bs) i = add_base_all icls bs (add_base icls b i)

module _ (icls : ClassId) where
  pub bases-add_base_all :
      (bs : List ClassId) (i : Info)
      → bases_of (add_base_all icls bs i) icls ≡ bases_of i icls ++ bs
  unfolding add_base_all
  bases-add_base_all [] i = sym (append-nil (bases_of i icls))
  bases-add_base_all (b ∷ bs) i =
      bases-add_base_all bs (add_base icls b i)
      ∙ ap (λ xs. xs ++ bs) (bases-add_base icls b i icls ∙ rw (==_refl icls))
      ∙ append_assoc (bases_of i icls) (b ∷ []) bs

  pub bases-add_base_all_other :
      (bs : List ClassId) (i : Info) (d : ClassId)
      → (d == icls) ≡ false
      → bases_of (add_base_all icls bs i) d ≡ bases_of i d
  unfolding add_base_all
  bases-add_base_all_other [] i d ne = refl
  bases-add_base_all_other (b ∷ bs) i d ne =
      bases-add_base_all_other bs (add_base icls b i) d ne ∙ bases-add_base icls b i d ∙ rw ne

  pub heritage-add_base_all :
      (bs : List ClassId) (i : Info) (d : ClassId)
      → heritage_of (add_base_all icls bs i) d ≡ heritage_of i d
  unfolding add_base_all
  heritage-add_base_all [] i d = refl
  heritage-add_base_all (b ∷ bs) i d =
      heritage-add_base_all bs (add_base icls b i) d ∙ heritage-add_base icls b i d

  bases-derive_from :
      (b : ClassId) (i : Info) (d : ClassId) → bases_of (derive_from icls b i) d ≡ bases_of i d
  unfolding derive_from
  bases-derive_from b i d = ground arith

  heritage-derive_from :
      (b : ClassId) (i : Info) (d : ClassId)
      → heritage_of (derive_from icls b i) d ≡ heritage_of i d
  unfolding derive_from
  heritage-derive_from b i d = ground arith

  derived-derive_from :
      (b : ClassId) (i : Info) (d : ClassId)
      → derived_of (derive_from icls b i) d
        ≡ (if d == b then derived_of i b ++ icls ∷ [] else derived_of i d)
  unfolding derive_from
  derived-derive_from b i d = ground arith

  pub bases-add_derived :
      (bs : List ClassId) (i : Info) (d : ClassId)
      → bases_of (add_derived icls bs i) d ≡ bases_of i d
  unfolding add_derived
  bases-add_derived [] i d = refl
  bases-add_derived (b ∷ bs) i d =
      bases-add_derived bs (derive_from icls b i) d ∙ bases-derive_from b i d

  pub heritage-add_derived :
      (bs : List ClassId) (i : Info) (d : ClassId)
      → heritage_of (add_derived icls bs i) d ≡ heritage_of i d
  unfolding add_derived
  heritage-add_derived [] i d = refl
  heritage-add_derived (b ∷ bs) i d =
      heritage-add_derived bs (derive_from icls b i) d ∙ heritage-derive_from b i d

  -- A class that knows `icls` as derived keeps knowing it.
  has-derived_kept :
      (bs : List ClassId) (i : Info) (d : ClassId)
      → has icls (derived_of i d) ≡ true
      → has icls (derived_of (add_derived icls bs i) d) ≡ true
  unfolding add_derived
  has-derived_kept [] i d h = h
  has-derived_kept (b ∷ bs) i d h = has-derived_kept bs (derive_from icls b i) d (
      rw (derived-derive_from b i d)
        (ground (arith, has-append icls (derived_of i b) (icls ∷ []), ==_iff d b)))

  pub derived-add_derived :
      (bs : List ClassId) (i : Info) (d : ClassId)
      → has d bs ≡ true
      → has icls (derived_of (add_derived icls bs i) d) ≡ true
  unfolding add_derived
  derived-add_derived [] i d h = cc
  derived-add_derived (b ∷ bs) i d h = elim (Bool-cases (d == b)) [
    | inl same ↦ has-derived_kept bs (derive_from icls b i) d (
        rw (derived-derive_from b i d, same)
          (ground (arith, has-append icls (derived_of i b) (icls ∷ []))))
    | inr ne ↦ derived-add_derived bs (derive_from icls b i) d (ground arith)
  ]

module _ (interp : Interp) (fuel : ℕ) (icls : ClassId) where
  open interp use {find_class}

  pub add_bases-Names :
      (ts : List Bytes) (bs : List ClassId) (i : Info)
      → Names find_class ts bs
      → has icls bs ≡ false
      → add_bases interp fuel icls ts i ≡ (add_base_all icls bs i, none)
  unfolding add_bases add_base_all
  add_bases-Names [] [] i n out = refl
  add_bases-Names [] (b ∷ bs) i n out = absurd n
  add_bases-Names (t ∷ ts) [] i n out = absurd n
  add_bases-Names (t ∷ ts) (b ∷ bs) i n out =
      let ne : (b == icls) ≡ false = ground arith in
      rw (n.0, ne) (add_bases-Names ts bs (add_base icls b i) n.1 (ground arith))
