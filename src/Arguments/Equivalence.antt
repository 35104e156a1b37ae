-- ===== src/Arguments/Equivalence.antt =====
-- When EquivArgLists of generic/itclMethod.c accepts two argument lists.
use itcl.Prelude.{
  suc, ◌≡◌, refl, ap, ◌∙◌, Bool, true, false, not, ◌&&◌, Option, none, some, List, [], ◌∷◌, ◌++◌,
  if◌then◌else◌, length, leb, ◌==◌, arith,
}
use itcl.Prelude.Bytes.{Bytes, codes, name_eq}
use itcl.Arguments.{
  Arg, is_args, defaults_differ, ends_first, is_none, is_last, equiv_round, equiv_arg_lists,
}

-- Arguments with a name.
abbrev pub all_named : List Arg → Bool
all_named [] = true
all_named (r ∷ rs) = not (is_none r.name) && all_named rs

-- Arguments with a name other than "args".
abbrev pub is_fixed : Option Bytes → Bool
is_fixed none = false
is_fixed (some n) = not (is_args n)

abbrev pub all_fixed : List Arg → Bool
all_fixed [] = true
all_fixed (o ∷ os) = is_fixed o.name && all_fixed os

-- The same default value, or at most one that has a default value.
abbrev pub same_default : Option Bytes → Option Bytes → Bool
same_default none e = true
same_default (some a) none = true
same_default (some a) (some b) = name_eq a b

defaults_differ-same_default : (d e : Option Bytes) → not (defaults_differ d e) ≡ same_default d e
defaults_differ-same_default none e = refl
defaults_differ-same_default (some a) none = refl
defaults_differ-same_default (some a) (some b) = not_not (name_eq a b)
  where
    not_not : (x : Bool) → not (not x) ≡ x
    not_not true = refl
    not_not false = refl

-- Arguments at the same place have the same default value if both have one.
abbrev pub compatible : List Arg → List Arg → Bool
compatible [] rs = true
compatible (o ∷ os) [] = true
compatible (o ∷ os) (r ∷ rs) = same_default o.default_value r.default_value && compatible os rs

-- The magic last argument.
abbrev pub rest_args : Bool → List Arg
rest_args false = []
rest_args true = record { name = some (codes "args"); default_value = none } ∷ []

abbrev pub long_enough : Bool → List Arg → List Arg → Bool
long_enough variadic os rs =
    if variadic then leb (length os) (length rs) else length os == length rs

ends_first-fixed : (d n : Option Bytes) → is_fixed n ≡ true → ends_first d n ≡ false
ends_first-fixed (some d) n h = refl
ends_first-fixed none none h = ground (arith, h)
ends_first-fixed none (some n) h = ground (arith, h)

equiv_round-fixed :
    (n : Option Bytes) (o : Arg) (last : Bool) (r : Arg) (rest : Bool)
    → is_fixed n ≡ true
    → is_none r.name ≡ false
    → equiv_round n o last r rest ≡ (same_default o.default_value r.default_value && rest)
unfolding equiv_round
equiv_round-fixed none o last r rest h k = ground (arith, h)
equiv_round-fixed (some n) o last r rest h k =
    ground (arith, h, k, defaults_differ-same_default o.default_value r.default_value)

next-exact :
    (variadic : Bool) (os rs : List Arg) (b : Bool)
    → (b && (long_enough variadic os rs && compatible os rs)) ≡ (
        (if variadic
          then leb (suc (length os)) (suc (length rs))
          else suc (length os) == suc (length rs))
        && (b && compatible os rs))
next-exact true os rs b = ground arith
next-exact false os rs b = ground arith

-- A declaration with fixed arguments, all named and none called args, and possibly a last args, fits a
-- body whose arguments all have names exactly if the body has as many arguments, or with args at least
-- as many, and no two at the same place have different default values. Whether only one of the two has
-- a default value plays no part.
pub equiv_arg_lists-exact :
    (variadic : Bool) (os rs : List Arg)
    → all_fixed os ≡ true
    → all_named rs ≡ true
    → equiv_arg_lists (os ++ rest_args variadic) rs
      ≡ (long_enough variadic os rs && compatible os rs)
unfolding equiv_arg_lists
equiv_arg_lists-exact true [] [] h k = refl
equiv_arg_lists-exact false [] [] h k = refl
equiv_arg_lists-exact false [] (r ∷ rs) h k = ground arith
equiv_arg_lists-exact true [] (r ∷ rs) h k = ground (arith, k)
equiv_arg_lists-exact true (o ∷ os) [] h k =
    ground (arith, ends_first-fixed o.default_value o.name, h)
equiv_arg_lists-exact false (o ∷ os) [] h k =
    ground (arith, ends_first-fixed o.default_value o.name, h)
equiv_arg_lists-exact variadic (o ∷ os) (r ∷ rs) h k =
    equiv_round-fixed o.name o (is_last (os ++ rest_args variadic)) r
      (equiv_arg_lists (os ++ rest_args variadic) rs) (ground (arith, h)) (ground (arith, k))
    ∙ (ap (λ b. same_default o.default_value r.default_value && b)
          (equiv_arg_lists-exact variadic os rs (ground (arith, h)) (ground (arith, k)))
        ∙ next-exact variadic os rs _)
