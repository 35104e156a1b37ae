-- ===== src/Lifecycle.antt =====
-- The constructors and destructors of an object: the data that generic/itclObject.c and
-- generic/itclMethod.c share, and what a script of a class may do while it runs.
pub mod Chains
pub mod Construct
pub mod Build
pub mod Implicit
pub mod Objects
pub mod Raze
pub mod Unwind
pub mod Bodies
pub mod Creation
pub mod Deletion
pub mod Failure
pub mod Quiet
pub mod Once
pub mod Destruct
use itcl.Prelude.{ℕ, Bool, Option, none, some, List, ◌∷◌, if◌then◌else◌, has}
use itcl.Classes.{ClassId}

-- The simple name of a class, `namePtr`; equal names are equal numbers.
abbrev pub ClassName : Type 0
ClassName = ℕ

-- `TCL_OK` and `TCL_ERROR`.
pub data Code : Type 0 where
  ok error : Code

-- A script, by the explicit calls `Class::constructor` or `Class::destructor` that it makes: how it
-- goes on after a call that returned TCL_OK, and after one that returned an error.
pub data Script : Type 0 where
  done fail : Script
  call : ClassId → Script → Script → Script

-- The fields of `ItclClass`: `bases`, `namePtr`, `initCode`, and the members constructor and
-- destructor of `functions`.
pub record ClassCode : Type 0 where
  pub bases : List ClassId
  pub name : ClassName
  pub init_code : Script
  pub constructor : Option Script
  pub destructor : Option Script

-- A table of `ItclObject`, `constructed` or `destructed`, or NULL; and the classes whose bodies were
-- started, the last one first.
pub record Progress : Type 0 where
  pub table : Option (List ClassName)
  pub ran : List ClassId

-- How a chain of calls ends; a fault is a look-up in a table that is NULL.
pub data Ran : Type 0 where
  ended : Code → Progress → Ran
  fault out_of_fuel : Ran

-- The next step runs only after TCL_OK.
unfoldable pub and_then : Ran → (Progress → Ran) → Ran
and_then (ended ok p) k = k p
and_then (ended error p) k = ended error p
and_then fault k = fault
and_then out_of_fuel k = out_of_fuel

-- `Tcl_CreateHashEntry`, if the table is there.
unfoldable pub mark_name : ClassName → Option (List ClassName) → Option (List ClassName)
mark_name n none = none
mark_name n (some t) = some (if has n t then t else n ∷ t)

-- ItclAfterCallMethod: the class is in the table, whatever the call returned.
unfoldable pub after_call : ClassName → Ran → Ran
unfolding mark_name
after_call n (ended r p) = ended r (record p { table = mark_name n p.table })
after_call n fault = fault
after_call n out_of_fuel = out_of_fuel

abbrev pub start_body : ClassId → Progress → Progress
start_body c p = record p { ran = c ∷ p.ran }

-- Evaluates a script, where `invoke` is a call of a constructor or destructor.
unfoldable pub run_script : (ClassId → Progress → Ran) → Script → Progress → Ran
run_script invoke done p = ended ok p
run_script invoke fail p = ended error p
run_script invoke (call c next other) p = elim (invoke c p) [
  | ended ok q ↦ run_script invoke next q
  | ended error q ↦ run_script invoke other q
  | fault ↦ fault
  | out_of_fuel ↦ out_of_fuel
]
