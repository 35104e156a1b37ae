-- ===== src/Tests/Arguments.antt =====
-- Runs of EquivArgLists of generic/itclMethod.c.
use itcl.Prelude.{◌≡◌, refl, true, false, ◌&&◌, Option, none, some, List, [], ◌∷◌, ◌++◌}
use itcl.Prelude.Bytes.{Bytes, codes}
use itcl.Arguments.{Arg, equiv_arg_lists}
use itcl.Arguments.Equivalence.{rest_args, long_enough, compatible, equiv_arg_lists-exact}

abbrev arg : Bytes → Option Bytes → Arg
arg name default = record { name = some name; default_value = default }

-- `{x {y 1}}` and `{a b c}`
abbrev declared : List Arg
declared = arg (codes "x") none ∷ arg (codes "y") (some (codes "1")) ∷ []

abbrev given : List Arg
given = arg (codes "a") none ∷ arg (codes "b") none ∷ arg (codes "c") none ∷ []

equiv_arg_lists-exact_example :
    equiv_arg_lists (declared ++ rest_args true) given
    ≡ (long_enough true declared given && compatible declared given)
equiv_arg_lists-exact_example = equiv_arg_lists-exact true declared given refl refl

with_args : equiv_arg_lists (declared ++ rest_args true) given ≡ true
unfolding equiv_arg_lists
with_args = refl

without_args : equiv_arg_lists declared given ≡ false
unfolding equiv_arg_lists
without_args = refl
