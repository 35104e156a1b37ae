-- ===== src/Resolve.antt =====
-- The command resolver of class namespaces, generic/itclResolve.c.
pub mod Commands
use itcl.Prelude.{
  ℕ, Bool, true, false, not, ◌&&◌, ◌||◌, Option, none, some, List, [], ◌∷◌, ◌==◌, if◌then◌else◌,
}
use itcl.Prelude.Bytes.{Bytes, codes, name_eq}
use itcl.Classes.{ClassId, NsId, MemberFunc, find_entry, Class, Info}

-- A `Tcl_Command` is a number.
abbrev pub CmdToken : Type 0
CmdToken = ℕ

-- TCL_OK with the command, TCL_ERROR (with "invalid command name"), or TCL_CONTINUE.
pub data Resolution : Type 0 where
  ok : CmdToken → Resolution
  invalid : Resolution
  continue : Resolution

-- The names that `Itcl_ClassCmdResolver` lets pass in types and widgets.
abbrev pub type_builtins : List Bytes
type_builtins =
    codes "info"
    ∷ codes "mytypemethod"
    ∷ codes "myproc"
    ∷ codes "mymethod"
    ∷ codes "mytypevar"
    ∷ codes "myvar"
    ∷ codes "itcl_hull"
    ∷ codes "callinstance"
    ∷ codes "getinstancevar"
    ∷ codes "installcomponent"
    ∷ []

unfoldable pub is_one_of : Bytes → List Bytes → Bool
is_one_of name [] = false
is_one_of name (n ∷ ns) = name_eq name n || is_one_of name ns

-- What the resolver asks of the interpreter: the namespace one level up, and the command that a name
-- stands for there.
pub record Frames : Type 0 where
  pub uplevel_namespace : NsId
  pub find_command : Bytes → NsId → Option CmdToken

-- The entry of `unknown`, if the name is delegated.
delegated_to : Option ℕ → Option MemberFunc → Option MemberFunc
delegated_to none unknown = none
delegated_to (some _) unknown = unknown

-- The entry of the name, or, in an extended class, that of `unknown`.
pub entry_or : Option MemberFunc → Bool → Option ℕ → Option MemberFunc → Option MemberFunc
unfolding delegated_to
entry_or (some im) eclass delegated unknown = some im
entry_or none eclass delegated unknown = if eclass then delegated_to delegated unknown else none

-- The function that a name means in a class: in an extended class a delegated function without an
-- entry of its own is handled by `unknown`.
unfoldable pub lookup_func : Class → Bytes → Option MemberFunc
unfolding entry_or
lookup_func c name =
    entry_or (find_entry name c.resolve_cmds) c.flags.eclass (find_entry name c.delegated_functions)
      (find_entry (codes "unknown") c.resolve_cmds)

module _ (frames : Frames) (i : Info) where
  open frames use {uplevel_namespace, find_command}

  -- A method that a type calls directly is looked for in the namespace one level up.
  outer_command : Bytes → NsId → Resolution
  outer_command name ns =
      if ns == uplevel_namespace
      then invalid
      else elim (find_command name uplevel_namespace) [ none ↦ invalid | some cmd ↦ ok cmd ]

  resolve_in_type : Bytes → NsId → MemberFunc → Resolution
  unfolding outer_command is_one_of
  resolve_in_type name ns im =
      if is_one_of name type_builtins
      then ok im.access_cmd
      else if im.type_method
      then invalid
      else if not im.common && not i.in_option_handling
      then outer_command name ns
      else ok im.access_cmd

  resolve_func : Bytes → NsId → Class → Option MemberFunc → Resolution
  unfolding resolve_in_type
  resolve_func name ns c none = continue
  resolve_func name ns c (some im) =
      if c.flags.is_type then resolve_in_type name ns im else ok im.access_cmd

  resolve_in_class : Bytes → NsId → Option ClassId → Resolution
  unfolding resolve_func lookup_func
  resolve_in_class name ns none = continue
  resolve_in_class name ns (some icls) =
      resolve_func name ns (i.classes icls) (lookup_func (i.classes icls) name)

  -- The test for a deleted command is switched off in the code (`isCmdDeleted = 0`).
  unfoldable pub class_cmd_resolver : Bytes → NsId → Resolution
  unfolding resolve_in_class
  class_cmd_resolver name ns =
      if name_eq name (codes "this")
      then continue
      else resolve_in_class name ns (i.namespace_classes ns)
