-- ===== src/Lifecycle/Destruct.antt =====
-- ItclDestructBase and the call of a destructor, generic/itclObject.c.
use itcl.Prelude.{
  ℕ, zero, suc, Bool, true, false, Option, none, some, List, [], ◌∷◌, if◌then◌else◌, has,
}
use itcl.Classes.{ClassId}
use itcl.Lifecycle.{
  ClassName, ok, error, Script, ClassCode, Progress, Ran, ended, fault, out_of_fuel, and_then,
  after_call, start_body, run_script,
}

-- What is destructed: the class with its bases, or only the destructor's body is called.
pub data Task : Type 0 where
  with_bases body_only : Task

module _ (code : ClassId → ClassCode) (rec : Task → ClassId → Progress → Ran) where
  unfoldable pub call_destructor : ClassId → Option Script → Progress → Ran
  unfolding after_call run_script
  call_destructor c none p = ended error p
  call_destructor c (some body) p =
      after_call (code c).name (run_script (rec body_only) body (start_body c p))

  -- Itcl_InvokeMethodIfExists: a class without a destructor has nothing to do.
  unfoldable pub destruct_own : ClassId → Option Script → Progress → Ran
  destruct_own c none p = ended ok p
  destruct_own c (some body) p = rec body_only c p

  unfoldable pub destruct_one : ClassId → Option (List ClassName) → Progress → Ran
  unfolding destruct_own
  destruct_one c none p = fault
  destruct_one c (some t) p =
      if has (code c).name t then ended ok p else destruct_own c (code c).destructor p

  unfoldable pub destruct_bases : List ClassId → Progress → Ran
  unfolding and_then
  destruct_bases [] p = ended ok p
  destruct_bases (b ∷ bs) p = and_then (rec with_bases b p) (destruct_bases bs)

  unfoldable pub destruct_task : Task → ClassId → Progress → Ran
  unfolding and_then destruct_one destruct_bases call_destructor
  destruct_task with_bases c p = and_then (destruct_one c p.table p) (destruct_bases (code c).bases)
  destruct_task body_only c p = call_destructor c (code c).destructor p

-- The calls of ItclDestructBase from the outside. The flag ITCL_OBJECT_CLASS_DESTRUCTED does not
-- change below it, so only the outermost call tests it.
unfoldable pub destruct : (ClassId → ClassCode) → ℕ → Task → ClassId → Progress → Ran
unfolding destruct_task
destruct code zero task c p = out_of_fuel
destruct code (suc fuel) task c p = destruct_task code (destruct code fuel) task c p

unfoldable pub destruct_base : (ClassId → ClassCode) → ℕ → Bool → ClassId → Progress → Ran
unfolding destruct
destruct_base code fuel true c p = ended ok p
destruct_base code fuel false c p = destruct code fuel with_bases c p
