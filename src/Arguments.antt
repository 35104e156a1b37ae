-- ===== src/Arguments.antt =====
-- EquivArgLists of generic/itclMethod.c: whether the arguments of a body fit those of a declaration.
pub mod Equivalence
use itcl.Prelude.{ℕ, Bool, true, false, not, ◌&&◌, Option, none, some, List, [], ◌∷◌, if◌then◌else◌}
use itcl.Prelude.Bytes.{Bytes, codes, name_eq}

-- The name (NULL in a list that has no arguments) and the default value of an `ItclArgList`.
pub record Arg : Type 0 where
  pub name : Option Bytes
  pub default_value : Option Bytes

-- `strcmp(name, "args") == 0`
abbrev pub is_args : Bytes → Bool
is_args name = name_eq name (codes "args")

-- Two default values differ.
abbrev pub defaults_differ : Option Bytes → Option Bytes → Bool
defaults_differ (some a) (some b) = not (name_eq a b)
defaults_differ _ _ = false

-- The second list ends first, before an argument with this default value and name.
abbrev pub ends_first : Option Bytes → Option Bytes → Bool
ends_first (some d) name = false
ends_first none none = true
ends_first none (some n) = is_args n

abbrev pub is_none {ℓ} : {A : Type ℓ} → Option A → Bool
is_none none = true
is_none (some a) = false

abbrev pub is_last {ℓ} : {A : Type ℓ} → List A → Bool
is_last [] = true
is_last (x ∷ xs) = false

-- A round with an argument of both lists; `rest` is the result for the next ones.
unfoldable pub equiv_round : Option Bytes → Arg → Bool → Arg → Bool → Bool
equiv_round none o last r rest = is_none r.name
equiv_round (some n) o last r rest =
    if is_none r.name && not (is_args n)
    then false
    else if is_args n && last
    then true
    else if defaults_differ o.default_value r.default_value
    then false
    else rest

unfoldable pub equiv_arg_lists : List Arg → List Arg → Bool
unfolding equiv_round
equiv_arg_lists [] [] = true
equiv_arg_lists [] (r ∷ rs) = false
equiv_arg_lists (o ∷ os) [] = ends_first o.default_value o.name
equiv_arg_lists (o ∷ os) (r ∷ rs) = equiv_round o.name o (is_last os) r (equiv_arg_lists os rs)
