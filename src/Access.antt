-- ===== src/Access.antt =====
-- The access rules of generic/itclUtil.c.
pub mod Rules
use itcl.Prelude.{
  ℕ, Bool, true, false, not, ◌&&◌, Option, none, some, ◌==◌, ltb, if◌then◌else◌, has,
}
use itcl.Prelude.Bytes.{Bytes}
use itcl.Classes.{
  ClassId, NsId, MemberFunc, find_entry, Class, Info, itcl_public, itcl_protected, itcl_private,
}

-- `Itcl_IsClassNamespace`: the namespace has a class. (`ItclNamespace2Class` reads the metadata of
-- the namespace's object, which is set and removed with the entry of `namespaceClasses`.)
pub is_class_namespace : Info → NsId → Bool
is_class_namespace i ns = elim (i.namespace_classes ns) [ none ↦ false | some _ ↦ true ]

-- `iclsPtr == Tcl_GetHashValue(entry)`
same_class : ClassId → Option ClassId → Bool
same_class icls none = false
same_class icls (some c) = icls == c

-- The class stands in the heritage of the class that asks.
in_heritage : Info → ClassId → Option ClassId → Bool
in_heritage i icls none = false
in_heritage i icls (some from) = has icls (i.classes from).heritage

-- `none` is a failed assertion: the protection level is none of the three.
unfoldable pub can_access2 : Info → ClassId → ℕ → NsId → Option Bool
unfolding is_class_namespace same_class in_heritage
can_access2 i icls protection from_ns =
    if protection == itcl_public
    then some true
    else if protection == itcl_private
    then some (same_class icls (i.namespace_classes from_ns))
    else if protection == itcl_protected
    then some (is_class_namespace i from_ns && in_heritage i icls (i.namespace_classes from_ns))
    else none

unfoldable pub can_access : Info → MemberFunc → NsId → Option Bool
unfolding can_access2
can_access i im from_ns = can_access2 i im.icls im.protection from_ns

-- The function that a class resolves a name to may be overridden from a derived class.
overridable : Option MemberFunc → Bool
overridable none = false
overridable (some ovl) = not ovl.common && ltb ovl.protection itcl_private

-- The function overrides one of the class that asks, which is a base class of its own.
overrides : Info → MemberFunc → Option ClassId → Bool
unfolding overridable
overrides i im none = false
overrides i im (some from) =
    has from (i.classes im.icls).heritage
    && overridable (find_entry im.name (i.classes from).resolve_cmds)

-- The usual rules, and then the last resort.
or_override : Option Bool → Bool → Option Bool
or_override none override = none
or_override (some true) override = some true
or_override (some false) override = some override

unfoldable pub can_access_func : Info → MemberFunc → NsId → Option Bool
unfolding can_access overrides is_class_namespace or_override
can_access_func i im from_ns =
    or_override (can_access i im from_ns) (
      not im.common && is_class_namespace i from_ns && overrides i im (i.namespace_classes from_ns))
