-- ===== src/Lifecycle/Chains.antt =====
-- Chains of steps that stop at the first error, and the tables that they fill.
use itcl.Prelude.{
  ◌≡◌, refl, ap, ◌∙◌, sym, true, Option, none, some, List, [], ◌∷◌, arith, if◌then◌else◌, has,
}
use itcl.Classes.{ClassId}
use itcl.Lifecycle.{
  ClassName, Code, ok, error, Progress, Ran, ended, fault, out_of_fuel, and_then, mark_name,
}

pub and_then_assoc :
    (r : Ran) (k l : Progress → Ran)
    → and_then (and_then r k) l ≡ and_then r (λ p. and_then (k p) l)
unfolding and_then
and_then_assoc (ended ok p) k l = refl
and_then_assoc (ended error p) k l = refl
and_then_assoc fault k l = refl
and_then_assoc out_of_fuel k l = refl

pub and_then-ended : (r : Ran) → and_then r (ended ok) ≡ r
unfolding and_then
and_then-ended (ended ok p) = refl
and_then-ended (ended error p) = refl
and_then-ended fault = refl
and_then-ended out_of_fuel = refl

-- The chain is the same if the step is the same after every success.
pub and_then-congr :
    (r : Ran) (k l : Progress → Ran)
    → ((p : Progress) → r ≡ ended ok p → k p ≡ l p)
    → and_then r k ≡ and_then r l
unfolding and_then
and_then-congr (ended ok p) k l h = h p refl
and_then-congr (ended error p) k l h = refl
and_then-congr fault k l h = refl
and_then-congr out_of_fuel k l h = refl

-- A result without the table that an error leaves behind.
unfoldable pub settle : Ran → Ran
settle (ended ok p) = ended ok p
settle (ended error p) = ended error (record p { table = none })
settle fault = fault
settle out_of_fuel = out_of_fuel

pub settle-and_then :
    (r : Ran) (k : Progress → Ran) → settle (and_then r k) ≡ and_then (settle r) (λ p. settle (k p))
unfolding and_then settle
settle-and_then (ended ok p) k = refl
settle-and_then (ended error p) k = refl
settle-and_then fault k = refl
settle-and_then out_of_fuel k = refl

-- Every name of the first table is in the second.
abbrev pub Within : List ClassName → List ClassName → Type 0
Within t u = (n : ClassName) → has n t ≡ true → has n u ≡ true

pub ended-inj : {p q : Progress} → ended ok p ≡ ended ok q → p ≡ q
ended-inj e = cc

-- A chain that ends without an error has a first part that does.
pub and_then-inv :
    (r : Ran) (k : Progress → Ran) (q : Progress)
    → and_then r k ≡ ended ok q
    → (m : Progress) × (r ≡ ended ok m) × (k m ≡ ended ok q)
unfolding and_then
and_then-inv (ended ok p) k q e = (p, refl, e)
and_then-inv (ended error p) k q e = cc
and_then-inv fault k q e = cc
and_then-inv out_of_fuel k q e = cc

pub mark_name-Within :
    (n : ClassName) (t u : List ClassName)
    → Within t u
    → (v : List ClassName) × (mark_name n (some t) ≡ some v) × Within v (n ∷ u)
unfolding mark_name
mark_name-Within n t u w = ((if has n t then t else n ∷ t), refl, λ m e. ground (arith, w m))

-- The body of one class, if it has one, and how it ends.
unfoldable pub run_own : ClassName → ClassId → Option Code → Progress → Ran
unfolding mark_name
run_own n c none p = ended ok p
run_own n c (some r) p = ended r (record p { table = mark_name n p.table; ran = c ∷ p.ran })

pub run_own-Within :
    (n : ClassName) (c : ClassId) (r : Option Code) (p q : Progress) (t u : List ClassName)
    → run_own n c r p ≡ ended ok q
    → p.table ≡ some t
    → Within t u
    → (v : List ClassName) × (q.table ≡ some v) × Within v (n ∷ u)
unfolding run_own
run_own-Within n c none p q t u e h w =
    (t, ap (λ x. x.table) (sym (ended-inj e)) ∙ h, λ m k. ground (arith, w m k))
run_own-Within n c (some ok) p q t u e h w =
    let (v, g, z) = mark_name-Within n t u w in
    (v, ap (λ x. x.table) (sym (ended-inj e)) ∙ ap (mark_name n) h ∙ g, z)
run_own-Within n c (some error) p q t u e h w = cc

pub settle-inv : (r : Ran) (q : Progress) → settle r ≡ ended ok q → r ≡ ended ok q
unfolding settle
settle-inv (ended ok p) q e = e
settle-inv (ended error p) q e = cc
settle-inv fault q e = cc
settle-inv out_of_fuel q e = cc

ended_ran : Ran → List ClassId
ended_ran (ended r p) = p.ran
ended_ran fault = []
ended_ran out_of_fuel = []

pub settle-inv_error :
    (r : Ran) (q : Progress)
    → settle r ≡ ended error q
    → (m : Progress) × (r ≡ ended error m) × (m.ran ≡ q.ran)
unfolding settle ended_ran
settle-inv_error (ended ok p) q e = cc
settle-inv_error (ended error p) q e = (p, refl, ap ended_ran e)
settle-inv_error fault q e = cc
settle-inv_error out_of_fuel q e = cc
