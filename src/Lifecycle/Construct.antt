-- ===== src/Lifecycle/Construct.antt =====
-- Itcl_ConstructBase, ItclConstructGuts and the call of a constructor, generic/itclMethod.c.
use mathlib.Core.List.{reverse}
use itcl.Prelude.{ℕ, zero, suc, Option, none, some, List, [], ◌∷◌, if◌then◌else◌, has}
use itcl.Classes.{ClassId}
use itcl.Lifecycle.{
  ClassName, ok, error, Script, ClassCode, Progress, Ran, ended, fault, out_of_fuel, and_then,
  after_call, start_body, run_script,
}

-- What is constructed: the bases only, or the class with its constructor's body.
pub data Task : Type 0 where
  base_only with_body : Task

module _ (code : ClassId → ClassCode) (rec : Task → ClassId → Progress → Ran) where
  -- A base class that is not in the table: its constructor, or else its bases.
  unfoldable pub construct_absent : ClassId → Option Script → Progress → Ran
  construct_absent b none p = rec base_only b p
  construct_absent b (some s) p = rec with_body b p

  unfoldable pub construct_one : ClassId → Option (List ClassName) → Progress → Ran
  unfolding construct_absent
  construct_one b none p = fault
  construct_one b (some t) p =
      if has (code b).name t then ended ok p else construct_absent b (code b).constructor p

  -- The loop over the base classes, in the order of the loop.
  unfoldable pub construct_bases : List ClassId → Progress → Ran
  unfolding and_then construct_one
  construct_bases [] p = ended ok p
  construct_bases (b ∷ bs) p = and_then (construct_one b p.table p) (construct_bases bs)

  -- The init code, and then the bases from the last to the first.
  unfoldable pub construct_base : ClassId → Progress → Ran
  unfolding and_then run_script construct_bases
  construct_base c p =
      and_then (run_script (rec with_body) (code c).init_code p)
        (construct_bases (reverse (code c).bases))

  -- `my ItclConstructBase`: nothing, once the object is constructed.
  unfoldable pub construct_guts : ClassId → Option (List ClassName) → Progress → Ran
  construct_guts c none p = ended ok p
  construct_guts c (some t) p = rec base_only c p

  -- A call of a constructor, whose body starts with `my ItclConstructBase`. A class without a
  -- constructor has no such command.
  unfoldable pub call_constructor : ClassId → Option Script → Progress → Ran
  unfolding and_then after_call construct_guts run_script
  call_constructor c none p = ended error p
  call_constructor c (some body) p = after_call (code c).name (
      and_then (construct_guts c p.table p) (λ q. run_script (rec with_body) body (start_body c q)))

  unfoldable pub construct_task : Task → ClassId → Progress → Ran
  unfolding construct_base call_constructor
  construct_task base_only c p = construct_base c p
  construct_task with_body c p = call_constructor c (code c).constructor p

unfoldable pub construct : (ClassId → ClassCode) → ℕ → Task → ClassId → Progress → Ran
unfolding construct_task
construct code zero task c p = out_of_fuel
construct code (suc fuel) task c p = construct_task code (construct code fuel) task c p
