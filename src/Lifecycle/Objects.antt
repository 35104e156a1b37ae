-- ===== src/Lifecycle/Objects.antt =====
-- The end and the start of an object, generic/itclObject.c: Itcl_DestructObject, Itcl_DeleteObject,
-- ItclDestroyObject, ObjectRenamedTrace, and the part of ItclCreateObject that constructs.
use itcl.Prelude.{
  ℕ, ◌+◌, ◌-◌, Bool, true, false, Option, none, some, List, [], if◌then◌else◌, ltb, ◌==◌,
}
use itcl.Classes.{ClassId}
use itcl.Lifecycle.{
  ClassName, Script, ClassCode, Code, ok, error, Progress, Ran, ended, fault, out_of_fuel,
}
use itcl.Lifecycle.Destruct.{destruct_base}
use itcl.Lifecycle.Construct.{construct, base_only, with_body}

-- The `deleteProc` of the access command.
pub data DeleteProc : Type 0 where
  destroy_object release_data : DeleteProc

-- `ItclObject`: its class, its flags, whether `oPtr` is set, `accessCmd`, whether it is in the table
-- `objects`, `callRefCount`, whether its variables namespace exists, the claims on its memory, and
-- its tables `constructed` and `destructed`.
pub record Object : Type 0 where
  pub icls : ClassId
  pub is_deleted : Bool
  pub is_destructed : Bool
  pub is_destroyed : Bool
  pub is_renamed : Bool
  pub class_destructed : Bool
  pub oo_deleted : Bool
  pub destruct_error : Bool
  pub should_delete_vars : Bool
  pub has_oo : Bool
  pub access_cmd : Option DeleteProc
  pub known : Bool
  pub call_refs : ℕ
  pub has_vars : Bool
  pub claims : ℕ
  pub constructed : Progress
  pub destructed : Progress

-- The result of an operation on the object. A crash is a failed assertion, the use of an object
-- whose memory is free, or the use of a table that is NULL.
pub data Result : Type 0 where
  returned : Code → Object → Result
  crash endless : Result

-- An object without claims has been freed: it must not be used.
abbrev pub alive : Object → Result → Result
alive o x = if o.claims == 0 then crash else x

-- Itcl_ReleaseData, with its assertion that there is a claim.
unfoldable pub release : Code → Object → Result
release r o = alive o (returned r (record o { claims = o.claims - 1 }))

-- ItclDeleteObjectVariablesNamespace: later, if a call is still active.
unfoldable pub delete_variables : Object → Object
delete_variables o =
    if ltb o.call_refs 1
    then record o { should_delete_vars = false; has_vars = false }
    else record o { should_delete_vars = true }

abbrev pub no_table : Progress → Progress
no_table p = record p { table = none }

-- FinalizeDeleteObject
unfoldable pub finalize_delete : Code → Object → Object
unfolding delete_variables
finalize_delete ok o = let d = delete_variables o in record d { destructed = no_table d.destructed }
finalize_delete error o = record o { destructed = no_table o.destructed }

unfoldable pub finish_destruct : Object → Ran → Result
unfolding finalize_delete
finish_destruct o (ended r p) = returned r (finalize_delete r (record o { destructed = p }))
finish_destruct o fault = crash
finish_destruct o out_of_fuel = endless

module _ (code : ClassId → ClassCode) (fuel : ℕ) where
  -- CallDestructBase and FinalizeDeleteObject, with a new table.
  unfoldable pub call_destruct_base : Object → Result
  unfolding finish_destruct destruct_base
  call_destruct_base o =
      finish_destruct o (
        destruct_base code fuel o.class_destructed o.icls (record o.destructed { table = some [] }))

  -- Itcl_DestructObject of an object that has not been destructed; the flag is ITCL_IGNORE_ERRS.
  unfoldable pub destruct_first : Bool → Object → Option (List ClassName) → Result
  unfolding call_destruct_base
  destruct_first ignore o (some t) = returned (if ignore then ok else error) o
  destruct_first ignore o none = if o.has_oo then call_destruct_base o else returned ok o

  unfoldable pub destruct_object : Bool → Object → Result
  unfolding destruct_first
  destruct_object ignore o = alive o (
      if o.is_destructed
      then returned ok o
      else destruct_first ignore (record o { is_destructed = true }) o.destructed.table)

  unfoldable pub class_is_destructed : Result → Result
  class_is_destructed (returned r o) = returned ok (record o { class_destructed = true })
  class_is_destructed crash = crash
  class_is_destructed endless = endless

  -- ObjectRenamedTrace, when the command is deleted.
  unfoldable pub object_renamed_trace : Object → Result
  unfolding class_is_destructed destruct_object
  object_renamed_trace o = alive o (
      if o.class_destructed
      then returned ok o
      else class_is_destructed (
          destruct_object true
            (record o { is_renamed = true; has_oo = if o.oo_deleted then false else o.has_oo })))

  abbrev pub forget_command : Object → Object
  forget_command o = record o {
    known = elim o.access_cmd [ none ↦ o.known | some _ ↦ false ];
    access_cmd = none;
  }

  unfoldable pub finish_destroy : Result → Result
  unfolding release
  finish_destroy (returned r o) = release ok (forget_command o)
  finish_destroy crash = crash
  finish_destroy endless = endless

  -- ItclDestroyObject
  unfoldable pub destroy : Object → Result
  unfolding finish_destroy destruct_object
  destroy o = alive o (
      if o.is_destroyed
      then returned ok o
      else finish_destroy (
          if o.is_destructed
          then returned ok (record o { is_destroyed = true })
          else destruct_object true (record o { is_destroyed = true })))

  unfoldable pub call_delete_proc : DeleteProc → Result → Result
  unfolding destroy release
  call_delete_proc destroy_object (returned r o) = destroy o
  call_delete_proc release_data (returned r o) = release ok o
  call_delete_proc proc crash = crash
  call_delete_proc proc endless = endless

  unfoldable pub delete_with : Option DeleteProc → Object → Result
  unfolding call_delete_proc object_renamed_trace
  delete_with none o = returned ok o
  delete_with (some proc) o = call_delete_proc proc (object_renamed_trace o)

  -- Tcl_DeleteCommandFromToken of the access command, if there is one: the trace comes first.
  unfoldable pub delete_command : Object → Result
  unfolding delete_with
  delete_command o = delete_with o.access_cmd o

  unfoldable pub drop_object : Result → Result
  unfolding release
  drop_object (returned r o) = release ok (record o { has_oo = false; access_cmd = none })
  drop_object crash = crash
  drop_object endless = endless

  -- The access command, with Itcl_ReleaseData in place of ItclDestroyObject, unless it is being
  -- deleted already.
  unfoldable pub delete_access : Object → Option DeleteProc → Result
  unfolding delete_command
  delete_access o none = returned ok o
  delete_access o (some proc) =
      if o.is_renamed
      then returned ok o
      else delete_command (record o { access_cmd = some release_data })

  -- The flags that are set after a failure, when the claim is given up.
  unfoldable pub set_failed : Result → Result
  set_failed (returned r o) =
      alive o (returned error (record o { oo_deleted = true; destruct_error = true }))
  set_failed crash = crash
  set_failed endless = endless

  unfoldable pub finish_delete : Result → Result
  unfolding drop_object delete_access set_failed release
  finish_delete (returned ok o) =
      drop_object (delete_access (record o { known = false }) o.access_cmd)
  finish_delete (returned error o) = set_failed (release error o)
  finish_delete crash = crash
  finish_delete endless = endless

  -- Itcl_DeleteObject
  unfoldable pub delete_object : Object → Result
  unfolding finish_delete destruct_object
  delete_object o = alive o (
      finish_delete (destruct_object false (record o { is_deleted = true; claims = o.claims + 1 })))

  unfoldable pub release_again : Result → Result
  unfolding release
  release_again (returned r o) = release r o
  release_again crash = crash
  release_again endless = endless

  -- One more claim, and then two are given up.
  unfoldable pub error_return : Result → Result
  unfolding delete_variables release release_again
  error_return (returned r o) =
      let d = delete_variables o in
      alive o (
        release_again (
          release error (record d {
            access_cmd = none;
            constructed = no_table d.constructed;
            claims = d.claims + 1;
          })))
  error_return crash = crash
  error_return endless = endless

  unfoldable pub finish_create : (Object → Object) → Object → Ran → Result
  unfolding error_return delete_command release
  finish_create cleanup o (ended ok p) =
      release ok (record o { constructed = no_table p; known = true })
  finish_create cleanup o (ended error p) =
      error_return (delete_command (cleanup (record o { constructed = p })))
  finish_create cleanup o fault = crash
  finish_create cleanup o out_of_fuel = endless

  -- The constructor of the class, or else its bases.
  unfoldable pub construct_object : Object → Option Script → Result
  unfolding finish_create construct delete_variables
  construct_object o none =
      finish_create (λ x. x) o (construct code fuel base_only o.icls o.constructed)
  construct_object o (some body) =
      finish_create delete_variables o (construct code fuel with_body o.icls o.constructed)

-- A new object of a class, before its constructors run.
abbrev pub new_object : ClassId → Object
new_object c = record {
  icls = c;
  is_deleted = false;
  is_destructed = false;
  is_destroyed = false;
  is_renamed = false;
  class_destructed = false;
  oo_deleted = false;
  destruct_error = false;
  should_delete_vars = false;
  has_oo = true;
  access_cmd = some destroy_object;
  known = true;
  call_refs = 0;
  has_vars = true;
  claims = 2;
  constructed = record { table = some []; ran = [] };
  destructed = record { table = none; ran = [] };
}

-- ItclCreateObject of a class that the command `class` made, from where the object is known.
unfoldable pub create_object : (ClassId → ClassCode) → ℕ → ClassId → Result
unfolding construct_object
create_object code fuel c = construct_object code fuel (new_object c) (code c).constructor
