-- ===== src/Tests/Hierarchies.antt =====
-- A small class hierarchy: `Base` (1), `Left` (2) and `Right` (3) inherit from it, `Plain` (5) does
-- not, and `Fresh` (4) has no bases yet.
use itcl.Prelude.{
  ℕ, ◌≡◌, ◌↔◌, ◌⊎◌, refl, Bool, true, false, Option, none, some, List, [], ◌∷◌, arith, ◌==◌,
  if◌then◌else◌,
}
use itcl.Prelude.Bytes.{Bytes, codes}
use itcl.Classes.{
  ClassId, MemberFunc, Table, find_entry, Class, Info, bases_of, itcl_public, itcl_protected,
  itcl_private,
}
use itcl.Hierarchy.{done, Round, go, walk_class}
use itcl.Hierarchy.Order.{Preorder, IsA}
use itcl.Hierarchy.Order
use itcl.Hierarchy.Iteration.{result, run_over, walk_class-Preorder}
use itcl.Tables.{build_virtual_tables}
use itcl.Tables.Build.{first_called, build-most_specific, build-candidates}
use itcl.Inherit.{Interp, code, InheritError, class_inherit_cmd}
use itcl.Inherit.Accepts.{IsReady, Inherited, class_inherit_cmd-accepts}
use itcl.Inherit.Rejects.{Failed, class_inherit_cmd-rejects}
use itcl.Inherit.Stale.{Stale, class_inherit_cmd-Stale}
use itcl.Access.{can_access2, can_access, can_access_func}
use itcl.Access.Rules.{
  HasHeritage, can_access2-class, can_access_func-exact, Overridden, can_access_func-outside,
  is_level,
}
use itcl.Stack.{init_stack, push_stack, pop_stack}
use itcl.Resolve.{is_one_of, type_builtins, Frames, ok, lookup_func, class_cmd_resolver}
use itcl.Resolve.Commands.{
  meaning, method_or_continue, class_cmd_resolver-most_specific, class_cmd_resolver-type,
}

abbrev pub show_base : MemberFunc
show_base = record {
  name = codes "show";
  icls = 1;
  protection = itcl_public;
  common = false;
  type_method = false;
  access_cmd = 100;
}

-- A private override of a public method.
abbrev show_left : MemberFunc
show_left = record {
  name = codes "show";
  icls = 2;
  protection = itcl_private;
  common = false;
  type_method = false;
  access_cmd = 101;
}

abbrev class_of : List ClassId → List ClassId → Table MemberFunc → Bytes → Class
class_of bases heritage functions name = record {
  bases = bases;
  derived = [];
  heritage = heritage;
  functions = functions;
  delegated_functions = [];
  resolve_cmds = functions;
  ns_path = name ∷ [] ∷ [];
  flags = record { eclass = false; is_type = false };
  ref_count = 1;
  freed = false;
}

abbrev class_at : ClassId → Class
class_at c =
    if c == 1
    then class_of [] (1 ∷ []) ((codes "show", show_base) ∷ []) (codes "Base")
    else if c == 2
    then class_of (1 ∷ []) (2 ∷ 1 ∷ []) ((codes "show", show_left) ∷ []) (codes "Left")
    else if c == 3
    then class_of (1 ∷ []) (3 ∷ 1 ∷ []) [] (codes "Right")
    else class_of [] (c ∷ []) [] (codes "Other")

-- The namespace of a class has the number of the class plus ten.
abbrev pub info : Info
info = record {
  classes = class_at;
  namespace_classes = λ ns.
      if ns == 11 then some 1 else if ns == 12 then some 2 else if ns == 13 then some 3 else none;
  in_option_handling = false;
}

abbrev one_base : Preorder (bases_of info) (1 ∷ []) (1 ∷ [])
one_base = Order.Preorder.one Order.Preorder.none Order.Preorder.none refl

abbrev pub left_order : Preorder (bases_of info) (2 ∷ []) (2 ∷ 1 ∷ [])
left_order = Order.Preorder.one one_base Order.Preorder.none refl

abbrev right_order : Preorder (bases_of info) (3 ∷ []) (3 ∷ 1 ∷ [])
right_order = Order.Preorder.one one_base Order.Preorder.none refl

abbrev both_order : Preorder (bases_of info) (2 ∷ 3 ∷ []) (2 ∷ 1 ∷ 3 ∷ 1 ∷ [])
both_order = Order.Preorder.one one_base right_order refl

abbrev left_plain_order : Preorder (bases_of info) (2 ∷ 5 ∷ []) (2 ∷ 1 ∷ 5 ∷ [])
left_plain_order =
    Order.Preorder.one one_base (Order.Preorder.one Order.Preorder.none Order.Preorder.none refl)
      refl

abbrev interp : Interp
interp = record {
  find_class = λ name. elim name [
    | [] ↦ none
    | c ∷ cs ↦ if c == b'L' then some 2 else if c == b'R' then some 3 else some 5
  ];
  push_call_frame = true;
  superclass = λ c bs. 0;
}

collect : ClassId → List ClassId → Round (List ClassId)
collect c seen = go (c ∷ seen)

walk_left : walk_class (bases_of info) collect 3 2 [] ≡ done (1 ∷ 2 ∷ [])
unfolding walk_class push_stack pop_stack init_stack collect
walk_left = refl

walk_class-Preorder_example :
    walk_class (bases_of info) collect 3 2 []
    ≡ done (result (run_over (bases_of info) collect (2 ∷ 1 ∷ []) []))
walk_class-Preorder_example =
    walk_class-Preorder (bases_of info) collect 3 2 [] left_order (omega arith)

build-most_specific_example :
    (i' : Info) × (build_virtual_tables 3 2 info ≡ done i')
    × (find_entry (codes "show") (i'.classes 2).resolve_cmds ≡ some show_left)
    × (find_entry (codes "show") (i'.classes 2).delegated_functions ≡ none)
unfolding find_entry
build-most_specific_example =
    build-most_specific info 3 2 (codes "show") refl left_order (omega arith)

-- A qualified name reaches the shadowed definition.
build-candidates_example :
    (i' : Info) × (build_virtual_tables 3 2 info ≡ done i')
    × (find_entry (codes "Base::show") (i'.classes 2).resolve_cmds
        ≡ first_called info (2 ∷ 1 ∷ []) (codes "Base::show"))
build-candidates_example = build-candidates info 3 2 (codes "Base::show") left_order (omega arith)

qualified_base : first_called info (2 ∷ 1 ∷ []) (codes "Base::show") ≡ some show_base
qualified_base = refl

plain-IsReady : IsReady info 4 (2 ∷ 5 ∷ []) (2 ∷ 1 ∷ 5 ∷ [])
plain-IsReady = record { no_bases = refl; alone = refl; ancestors = left_plain_order }

class_inherit_cmd-accepts_example :
    (i' : Info) × (class_inherit_cmd interp 5 (some 4) (codes "Left" ∷ codes "Plain" ∷ []) info
      ≡ done (i', code 0))
    × Inherited info i' 4 (2 ∷ 5 ∷ []) (2 ∷ 1 ∷ 5 ∷ [])
class_inherit_cmd-accepts_example =
    class_inherit_cmd-accepts interp 5 4 info (2 ∷ 5 ∷ []) (2 ∷ 1 ∷ 5 ∷ []) plain-IsReady refl
      (omega arith) (codes "Left") (codes "Plain" ∷ []) refl (refl, (refl, tt))

diamond-IsReady : IsReady info 4 (2 ∷ 3 ∷ []) (2 ∷ 1 ∷ 3 ∷ 1 ∷ [])
diamond-IsReady = record { no_bases = refl; alone = refl; ancestors = both_order }

-- `Base` is reached through `Left` and through `Right`.
class_inherit_cmd-rejects_example :
    (e : InheritError) × Failed 4 e
      (class_inherit_cmd interp 6 (some 4) (codes "Left" ∷ codes "Right" ∷ []) info)
class_inherit_cmd-rejects_example =
    class_inherit_cmd-rejects interp 6 4 info (2 ∷ 3 ∷ []) (2 ∷ 1 ∷ 3 ∷ 1 ∷ []) diamond-IsReady refl
      (omega arith) (codes "Left") (codes "Right" ∷ []) refl (refl, (refl, tt))

class_inherit_cmd-Stale_example :
    Stale 4 2
      (2 ∷ 1 ∷ 3 ∷ 1 ∷ [])
      (class_inherit_cmd interp 6 (some 4) (codes "Left" ∷ codes "Right" ∷ []) info)
class_inherit_cmd-Stale_example =
    class_inherit_cmd-Stale interp 6 4 2 info (3 ∷ []) (2 ∷ 1 ∷ 3 ∷ 1 ∷ []) diamond-IsReady refl
      refl (omega arith) (codes "Left") (codes "Right" ∷ []) refl (refl, (refl, tt))

pub left_HasHeritage : HasHeritage info 2
left_HasHeritage = record { order = left_order }

can_access2-class_example :
    (can_access2 info 1 itcl_public 12 ≡ some true)
    × ((can_access2 info 1 itcl_private 12 ≡ some true) ↔ (◌≡◌ {A = ℕ} 1 2))
    × ((can_access2 info 1 itcl_protected 12 ≡ some true) ↔ IsA (bases_of info) 1 2)
can_access2-class_example = can_access2-class info 1 2 12 refl left_HasHeritage

can_access_func-exact_example : (can_access_func info show_left 11 ≡ some true) ↔ (
    (can_access info show_left 11 ≡ some true)
    ⊎ ((is_level itcl_private ≡ true)
        × (◌≡◌ {A = Bool} false false)
        × IsA (bases_of info) 1 2
        × Overridden info show_left 1))
can_access_func-exact_example = can_access_func-exact info show_left 11 1 refl left_HasHeritage

-- `Base` may call the private `show` of `Left`, since it has a public `show`.
base_calls_private : can_access_func info show_left 11 ≡ some true
unfolding can_access_func find_entry
base_calls_private = refl

can_access_func-outside_example : can_access_func info show_base 0 ≡ some true
can_access_func-outside_example = can_access_func-outside info show_base 0 refl

abbrev frames : Frames
frames = record { uplevel_namespace = 0; find_command = λ name ns. none }

class_cmd_resolver-most_specific_example :
    (i' : Info) × (build_virtual_tables 3 2 info ≡ done i')
    × (class_cmd_resolver frames i' (codes "show") 12
        ≡ method_or_continue (meaning info 2 (2 ∷ 1 ∷ []) (codes "show")))
class_cmd_resolver-most_specific_example =
    class_cmd_resolver-most_specific info 2 (codes "show") left_order refl frames 3 12 (omega arith)
      refl refl refl

-- A type with a proc and a method.
abbrev make_proc : MemberFunc
make_proc = record {
  name = codes "make";
  icls = 6;
  protection = itcl_public;
  common = true;
  type_method = false;
  access_cmd = 106;
}

abbrev type_info : Info
type_info = record {
  classes = λ c. record (class_of [] (6 ∷ []) ((codes "make", make_proc) ∷ []) (codes "T")) {
    flags = record { eclass = false; is_type = true };
  };
  namespace_classes = λ ns. some 6;
  in_option_handling = false;
}

make_resolves : class_cmd_resolver frames type_info (codes "make") 16 ≡ ok 106
unfolding class_cmd_resolver find_entry
make_resolves = refl

class_cmd_resolver-type_example :
    (im : MemberFunc) × (lookup_func (type_info.classes 6) (codes "make") ≡ some im)
    × (im.type_method ≡ false)
    × (((im.common ≡ true) ⊎ (◌≡◌ {A = Bool} false true))
        ⊎ ((◌≡◌ {A = Option ℕ} none (some 106)) × ((16 == 0) ≡ false)))
class_cmd_resolver-type_example =
    class_cmd_resolver-type frames type_info 6 16 (codes "make") 106 refl refl not_builtin
      make_resolves
  where
    not_builtin : is_one_of (codes "make") type_builtins ≡ false
    not_builtin = unfold is_one_of in refl
