-- ===== src/Inherit.antt =====
-- The `inherit` command of generic/itclParse.c. The text of error messages is not modelled: an error
-- names its branch and the classes that its message is about.
pub mod State
pub mod Scan
pub mod Accepts
pub mod Rejects
pub mod Stale
use itcl.Prelude.{
  ℕ, ◌+◌, Bool, true, false, Option, none, some, List, [], ◌∷◌, ◌++◌, ◌==◌, if◌then◌else◌, has,
}
use itcl.Prelude.Bytes.{Bytes}
use itcl.Classes.{ClassId, Class, Info, update, bases_of, preserve_class, release_class}
use itcl.Hierarchy.{Round, go, halt, Walk, done, fault, out_of_fuel, walk_ancestors}
use itcl.Tables.{build_virtual_tables}

pub data InheritError : Type 0 where
  wrong_args not_in_class frame_failed itself : InheritError
  already_defined : List ClassId → InheritError
  not_found : Bytes → InheritError
  base_twice : ClassId → InheritError
  inherited_twice : ClassId → InheritError

-- What the command returns: the code of `Tcl_EvalEx`, or TCL_ERROR on one of the branches.
pub data Status : Type 0 where
  code : ℕ → Status
  error : InheritError → Status

-- `Itcl_AppendList(&iclsPtr->bases, baseClsPtr); ItclPreserveClass(baseClsPtr);`
pub add_base : ClassId → ClassId → Info → Info
unfolding update preserve_class
add_base icls b i = preserve_class b (update i icls (λ k. record k { bases = k.bases ++ b ∷ [] }))

-- The label `inheritError`: every base is released and taken off the list.
release_all : List ClassId → Info → Info
unfolding release_class
release_all [] i = i
release_all (b ∷ bs) i = release_all bs (release_class b i)

pub tear_down : ClassId → Info → Info
unfolding release_all update
tear_down icls i = update (release_all (bases_of i icls) i) icls (λ k. record k { bases = [] })

-- The first class of a list that stands in it again.
pub find_twice : List ClassId → Option ClassId
find_twice [] = none
find_twice (c ∷ cs) = if has c cs then some c else find_twice cs

-- The heritage table during the scan, and the class whose entry was not new.
pub record Scanned : Type 0 where
  pub heritage : List ClassId
  pub repeated : Option ClassId

-- A round of the scan: `Tcl_CreateHashEntry`, and `break` if the entry is not new.
pub enter : ClassId → Scanned → Round Scanned
enter c s =
    if has c s.heritage
    then halt (record s { repeated = some c })
    else go (record s { heritage = s.heritage ++ c ∷ [] })

-- `Itcl_AppendList(&baseClsPtr->derived, iclsPtr); ItclPreserveClass(iclsPtr);`
pub derive_from : ClassId → ClassId → Info → Info
unfolding update preserve_class
derive_from icls b i =
    preserve_class icls (update i b (λ k. record k { derived = k.derived ++ icls ∷ [] }))

-- Each base class learns of the new derived class.
pub add_derived : ClassId → List ClassId → Info → Info
unfolding derive_from
add_derived icls [] i = i
add_derived icls (b ∷ bs) i = add_derived icls bs (derive_from icls b i)

-- What the command asks of the rest: the class that a name stands for (found or loaded), whether a
-- call frame can be pushed, and the code of the script `::oo::define ... superclass ...`.
pub record Interp : Type 0 where
  pub find_class : Bytes → Option ClassId
  pub push_call_frame : Bool
  pub superclass : ClassId → List ClassId → ℕ

module _ (interp : Interp) (fuel : ℕ) (icls : ClassId) where
  open interp use {find_class, push_call_frame, superclass}

  -- A round of the loop over the words of the command; `next` is the rest of the loop.
  add_found :
      Bytes
      → (Info → Info × Option InheritError)
      → Option ClassId
      → Info
      → Info × Option InheritError
  unfolding add_base
  add_found token next none i = (i, some (not_found token))
  add_found token next (some b) i = if b == icls then (i, some itself) else next (add_base icls b i)

  -- The loop over the words: the error that ends it, if any.
  pub add_bases : List Bytes → Info → Info × Option InheritError
  unfolding add_found
  add_bases [] i = (i, none)
  add_bases (token ∷ tokens) i = add_found token (add_bases tokens) (find_class token) i

  abbrev fail : InheritError → Info → Walk (Info × Status)
  fail e i = done (tear_down icls i, error e)

  finish : Info → Walk Info → Walk (Info × Status)
  finish i (done i') = done (i', code (superclass icls (bases_of i icls)))
  finish i fault = fault
  finish i out_of_fuel = out_of_fuel

  -- The table of the class holds what the scan entered, also when it fails.
  scanned : Info → Walk Scanned → Walk (Info × Status)
  unfolding finish add_derived update
  scanned i (done s) =
      let i' = update i icls (λ k. record k { heritage = s.heritage }) in
      elim s.repeated [
        | some c ↦ fail (inherited_twice c) i'
        | none ↦ finish i' (build_virtual_tables fuel icls (add_derived icls (bases_of i' icls) i'))
      ]
  scanned i fault = fault
  scanned i out_of_fuel = out_of_fuel

  pub scan : Info → Walk (Info × Status)
  unfolding scanned enter
  scan i = scanned i (
      walk_ancestors (bases_of i) enter fuel icls
        (record { heritage = (i.classes icls).heritage; repeated = none }))

  pub check_bases : Info × Option InheritError → Walk (Info × Status)
  unfolding scan find_twice tear_down
  check_bases (i, some e) = fail e i
  check_bases (i, none) = elim (find_twice (bases_of i icls)) [
    | some c ↦ fail (base_twice c) i
    | none ↦ scan i
  ]

  pub inherit_into : List Bytes → Info → List ClassId → Walk (Info × Status)
  unfolding add_bases check_bases
  inherit_into tokens i (b ∷ bs) = done (i, error (already_defined (b ∷ bs)))
  inherit_into tokens i [] =
      if push_call_frame then check_bases (add_bases tokens i) else done (i, error frame_failed)

-- The class is the top of the stack of classes being parsed.
unfoldable pub class_inherit_cmd :
    Interp → ℕ → Option ClassId → List Bytes → Info → Walk (Info × Status)
unfolding inherit_into
class_inherit_cmd interp fuel cls [] i = done (i, error wrong_args)
class_inherit_cmd interp fuel none (t ∷ ts) i = done (i, error not_in_class)
class_inherit_cmd interp fuel (some icls) (t ∷ ts) i =
    inherit_into interp fuel icls (t ∷ ts) i (bases_of i icls)
