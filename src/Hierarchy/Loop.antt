-- ===== src/Hierarchy/Loop.antt =====
-- Itcl_InitHierIter, Itcl_AdvanceHierIter, Itcl_DeleteHierIter, and `while (cls != NULL)` over them.
use mathlib.Core.List.{reverse}
use itcl.Prelude.{ℕ, zero, suc, Option, none, some, List, [], ◌∷◌, ◌>>=◌}
use itcl.Stack.{Stack, init_stack, delete_stack, push_stack, pop_stack}
use itcl.Classes.{ClassId}

pub record HierIter : Type 0 where
  pub current : Option ClassId
  pub stack : Stack ClassId

-- Pushes the classes in the order given; `none` is a write out of bounds.
unfoldable pub push_all : List ClassId → Stack ClassId → Option (Stack ClassId)
push_all [] s = some s
push_all (c ∷ cs) s = do t ← push_stack c s; push_all cs t

unfoldable pub init_hier_iter : ClassId → Option HierIter
init_hier_iter c = do
  stack ← push_stack c init_stack
  some (record { current = some c; stack = stack })

unfoldable pub delete_hier_iter : HierIter → HierIter
delete_hier_iter it = record { current = none; stack = delete_stack it.stack }

-- The bases of the popped class go on the stack from the last to the first.
unfoldable pub push_bases :
    (ClassId → List ClassId) → Option ClassId → Stack ClassId → Option (Option ClassId × HierIter)
unfolding push_all
push_bases bases none s = some (none, record { current = none; stack = s })
push_bases bases (some c) s = do
  t ← push_all (reverse (bases c)) s
  some (some c, record { current = some c; stack = t })

unfoldable pub advance_hier_iter :
    (ClassId → List ClassId) → HierIter → Option (Option ClassId × HierIter)
unfolding push_bases
advance_hier_iter bases it = let (cls, s) = pop_stack it.stack in push_bases bases cls s

-- How a loop over the hierarchy ends.
pub data Walk (S : Type 0) : Type 0 where
  done : S → Walk S
  fault : Walk S
  out_of_fuel : Walk S

-- What a round of the body does: go on, or `break`.
pub data Round (S : Type 0) : Type 0 where
  go : S → Round S
  halt : S → Round S

module _ {S : Type 0} (bases : ClassId → List ClassId) (body : ClassId → S → Round S) where
  -- `while (cls != NULL) { body; cls = Itcl_AdvanceHierIter(&hier); }`
  unfoldable pub walk : ℕ → Option ClassId → HierIter → S → Walk S
  walk zero cls it s = out_of_fuel
  walk (suc f) none it s = done s
  walk (suc f) (some c) it s = elim (body c s) [
    | halt s' ↦ done s'
    | go s' ↦ elim (advance_hier_iter bases it) [
      | none ↦ fault
      | some (cls, it') ↦ walk f cls it' s'
    ]
  ]

  abbrev pub start_walk : ℕ → Option (Option ClassId × HierIter) → S → Walk S
  start_walk f none s = fault
  start_walk f (some (cls, it)) s = walk f cls it s

  -- Itcl_InitHierIter, a first Itcl_AdvanceHierIter, and the loop.
  unfoldable pub walk_class : ℕ → ClassId → S → Walk S
  unfolding init_hier_iter advance_hier_iter walk
  walk_class f c s = start_walk f (init_hier_iter c >>= advance_hier_iter bases) s

  abbrev pub second : Option (Option ClassId × HierIter) → Option (Option ClassId × HierIter)
  second none = none
  second (some (cls, it)) = advance_hier_iter bases it

  -- The loop with the class itself skipped by one more Itcl_AdvanceHierIter.
  unfoldable pub walk_ancestors : ℕ → ClassId → S → Walk S
  unfolding init_hier_iter advance_hier_iter walk
  walk_ancestors f c s = start_walk f (second (init_hier_iter c >>= advance_hier_iter bases)) s
