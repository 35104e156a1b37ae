-- ===== src/Hierarchy/Order.antt =====
-- What the order of a hierarchy is, without the iterator: depth first, a class before its bases, and
-- the bases from left to right.
use itcl.Prelude.{
  ◌≡◌, refl, ◌∙◌, true, ◌||◌, ◌⊎◌, inl, inr, List, [], ◌∷◌, ◌++◌, arith, ◌==◌, has, has-append,
  ==_iff,
}
use itcl.Classes.{ClassId}

pub data Preorder (bases : ClassId → List ClassId) : List ClassId → List ClassId → Type 0 where
  none : Preorder bases [] []
  one :
      {c : ClassId} {cs below rest out : List ClassId}
      → Preorder bases (bases c) below
      → Preorder bases cs rest
      → out ≡ c ∷ below ++ rest
      → Preorder bases (c ∷ cs) out

-- `d` is `c` or one of its ancestors.
pub data IsA (bases : ClassId → List ClassId) (d : ClassId) : ClassId → Type 0 where
  self : IsA bases d d
  base : {c : ClassId} (b : ClassId) → has b (bases c) ≡ true → IsA bases d b → IsA bases d c

not_in_nil : (c : ClassId) → has c [] ≡ true → ⊥
not_in_nil c e = cc

has-cons-cases :
    (c k : ClassId) (cs : List ClassId) → has c (k ∷ cs) ≡ true → (c ≡ k) ⊎ (has c cs ≡ true)
has-cons-cases c k cs e = ground arith

module _ {bases : ClassId → List ClassId} {d : ClassId} where
  -- Every class of the order is one of the given classes or an ancestor of one.
  pub Preorder-IsA :
      {cs out : List ClassId}
      → Preorder bases cs out
      → has d out ≡ true
      → (c : ClassId) × (has c cs ≡ true) × IsA bases d c
  Preorder-IsA none h = absurd (not_in_nil d h)
  Preorder-IsA (one {c} {cs} {below} {rest} p q e) h =
      elim (place (rw (e, has-append d below rest) at h)) [
        | inl same ↦ (c, ground arith, rw ((==_iff d c).0 same) self)
        | inr (inl inside) ↦
            let (b, hb, i) = Preorder-IsA p inside in (c, ground arith, base b hb i)
        | inr (inr after) ↦ let (c', hc, i) = Preorder-IsA q after in (c', ground arith, i)
      ]
    where
      place :
          ((d == c) || (has d below || has d rest)) ≡ true
          → ((d == c) ≡ true) ⊎ ((has d below ≡ true) ⊎ (has d rest ≡ true))
      place e = ground arith

  IsA-cases :
      {c : ClassId}
      → IsA bases d c
      → (d ≡ c) ⊎ ((b : ClassId) × (has b (bases c) ≡ true) × IsA bases d b)
  IsA-cases self = inl refl
  IsA-cases (base b hb i) = inr (b, hb, i)

  -- Every ancestor of a given class is in the order.
  pub IsA-Preorder :
      {cs out : List ClassId} {c : ClassId}
      → Preorder bases cs out
      → has c cs ≡ true
      → IsA bases d c
      → has d out ≡ true
  IsA-Preorder {c} none h i = absurd (not_in_nil c h)
  IsA-Preorder {c} (one {c = k} {cs} {below} {rest} p q e) h i =
      rw (e, has-append d below rest)
        (elim (has-cons-cases c k cs h) [
          | inl same ↦ elim (IsA-cases i) [
            | inl top ↦ ground (arith, top ∙ same)
            | inr (b, hb, j) ↦ ground (arith, IsA-Preorder p (rw same at hb) j)
          ]
          | inr later ↦ ground (arith, IsA-Preorder q later i)
        ])

-- The order starts with the given class.
pub Preorder-head :
    {bases : ClassId → List ClassId} {c : ClassId} {out : List ClassId}
    → Preorder bases (c ∷ []) out
    → (rest : List ClassId) × (out ≡ c ∷ rest)
Preorder-head (one {below} {rest} p q e) = (below ++ rest, e)
