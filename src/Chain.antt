-- ===== src/Chain.antt =====
-- The command `chain`, NRBiChainCmd of generic/itclBuiltin.c: which implementation it invokes.
pub mod Next
use itcl.Prelude.{
  ℕ, zero, suc, Bool, true, false, not, ◌&&◌, ◌||◌, Option, none, some, List, ◌==◌, leb,
  if◌then◌else◌, length, get_elem?,
}
use itcl.Prelude.Bytes.{Bytes}
use itcl.Classes.{ClassId, MemberFunc, find_entry, Info, bases_of}
use itcl.Hierarchy.{HierIter, init_hier_iter, advance_hier_iter}
use itcl.Paths.{parse_namesp_path}

-- How the search ends: with a function that is invoked, with nothing to do, or with an error because
-- there is no class context. A fault is a write or a read out of bounds.
pub data Chained : Type 0 where
  invoke : MemberFunc → Chained
  nothing not_in_class fault out_of_fuel : Chained

-- How the first loop ends.
pub data Skipped : Type 0 where
  at : HierIter → Skipped
  fault out_of_fuel : Skipped

-- `Itcl_GetContext`: the class, and the class of the object if there is one.
pub record ClassContext : Type 0 where
  pub icls : ClassId
  pub object_class : Option ClassId

-- The words of the call frame, and whether it has client data.
pub record Frame : Type 0 where
  pub words : List Bytes
  pub has_client_data : Bool

-- The index of the word that names the method; `bare` is `objc == 1`.
unfoldable pub name_index : Bool → Frame → ℕ
name_index bare f =
    if not f.has_client_data || bare then if bare && leb 2 (length f.words) then 1 else 0 else 1

-- The advanced iterator, for the loops: `none` for a fault.
abbrev pub Advanced : Type 0
Advanced = Option (Option ClassId × HierIter)

-- One round of the first loop.
abbrev pub skip_with : ClassId → (HierIter → Skipped) → Advanced → Skipped
skip_with icls next none = fault
skip_with icls next (some (none, it)) = at it
skip_with icls next (some (some c, it)) = if c == icls then at it else next it

-- `while ((iclsPtr = Itcl_AdvanceHierIter(&hier)) != NULL) if (iclsPtr == contextIclsPtr) break;`
unfoldable pub skip_to : (ClassId → List ClassId) → ClassId → ℕ → HierIter → Skipped
skip_to bases icls zero it = out_of_fuel
skip_to bases icls (suc fuel) it =
    skip_with icls (skip_to bases icls fuel) (advance_hier_iter bases it)

abbrev pub invoke_or : Chained → Option MemberFunc → Chained
invoke_or rest none = rest
invoke_or rest (some m) = invoke m

-- One round of the second loop.
abbrev pub search_with : Info → Bytes → (HierIter → Chained) → Advanced → Chained
search_with i name next none = fault
search_with i name next (some (none, it)) = nothing
search_with i name next (some (some c, it)) =
    invoke_or (next it) (find_entry name (i.classes c).functions)

-- The loop over the classes that are left, up to one that has a function of the name.
unfoldable pub search_next : Info → Bytes → ℕ → HierIter → Chained
search_next i name zero it = out_of_fuel
search_next i name (suc fuel) it =
    search_with i name (search_next i name fuel) (advance_hier_iter (bases_of i) it)

abbrev pub search_skipped : Info → Bytes → ℕ → Skipped → Chained
search_skipped i name fuel (at it) = search_next i name fuel it
search_skipped i name fuel fault = fault
search_skipped i name fuel out_of_fuel = out_of_fuel

-- `Itcl_InitHierIter(&hier, iclsPtr); Itcl_AdvanceHierIter(&hier);`
abbrev pub skip_first : Advanced → Skipped
skip_first none = fault
skip_first (some (c, it)) = at it

abbrev pub skip_one : (ClassId → List ClassId) → Option HierIter → Skipped
skip_one bases none = fault
skip_one bases (some it) = skip_first (advance_hier_iter bases it)

abbrev pub skip_from : (ClassId → List ClassId) → ClassId → ℕ → Option HierIter → Skipped
skip_from bases icls fuel none = fault
skip_from bases icls fuel (some it) = skip_to bases icls fuel it

unfoldable pub skip_to_context : Info → ℕ → ClassContext → Option ClassId → Skipped
unfolding skip_to init_hier_iter advance_hier_iter
skip_to_context i fuel c none = skip_one (bases_of i) (init_hier_iter c.icls)
skip_to_context i fuel c (some k) = skip_from (bases_of i) c.icls fuel (init_hier_iter k)

abbrev pub chain_word : Info → ℕ → ClassContext → Option Bytes → Chained
chain_word i fuel c none = fault
chain_word i fuel c (some w) =
    search_skipped i (parse_namesp_path w).tail fuel (skip_to_context i fuel c c.object_class)

-- A frame without words does nothing.
abbrev pub chain_frame : Info → ℕ → Bool → ClassContext → Option Frame → Chained
chain_frame i fuel bare c none = nothing
chain_frame i fuel bare c (some f) = chain_word i fuel c (get_elem? f.words (name_index bare f))

-- `chain` in a context and a frame, up to the call of the function.
unfoldable pub chain_cmd : Info → ℕ → Bool → Option ClassContext → Option Frame → Chained
unfolding name_index skip_to_context search_next parse_namesp_path
chain_cmd i fuel bare none f = not_in_class
chain_cmd i fuel bare (some c) f = chain_frame i fuel bare c f
