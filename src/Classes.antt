-- ===== src/Classes.antt =====
-- The class records of generic/itclInt.h, as far as inheritance, resolution and access control use
-- them. A pointer to an `ItclClass`, and one to a namespace, is a number.
use itcl.Prelude.{
  ℕ, Bool, true, Option, none, some, List, [], ◌∷◌, ◌+◌, ◌-◌, ◌==◌, leb, if◌then◌else◌,
}
use itcl.Prelude.Bytes.{Bytes, name_eq}

abbrev pub ClassId : Type 0
ClassId = ℕ

abbrev pub NsId : Type 0
NsId = ℕ

-- The protection levels of generic/itcl.h.
abbrev pub itcl_public : ℕ
itcl_public = 1

abbrev pub itcl_protected : ℕ
itcl_protected = 2

abbrev pub itcl_private : ℕ
itcl_private = 3

abbrev pub itcl_default_protect : ℕ
itcl_default_protect = 4

-- `ItclMemberFunc`: its name, the class that owns it, its protection, the flags ITCL_COMMON and
-- ITCL_TYPE_METHOD, and its access command.
pub record MemberFunc : Type 0 where
  pub name : Bytes
  pub icls : ClassId
  pub protection : ℕ
  pub common : Bool
  pub type_method : Bool
  pub access_cmd : ℕ

-- The flags of a class that resolution reads: ITCL_ECLASS, and whether one of ITCL_TYPE,
-- ITCL_WIDGET and ITCL_WIDGETADAPTOR is set.
pub record ClassFlags : Type 0 where
  pub eclass : Bool
  pub is_type : Bool

-- A hash table as an association list.
abbrev pub Table : Type 0 → Type 0
Table V = List (Bytes × V)

module _ {V : Type 0} where
  -- `Tcl_FindHashEntry`
  unfoldable pub find_entry : Bytes → Table V → Option V
  find_entry k [] = none
  find_entry k ((j, v) ∷ t) = if name_eq j k then some v else find_entry k t

-- `ns_path` has the names of the class's namespace and of its parents, up to the global one.
pub record Class : Type 0 where
  pub bases : List ClassId
  pub derived : List ClassId
  pub heritage : List ClassId
  pub functions : Table MemberFunc
  pub delegated_functions : Table ℕ
  pub resolve_cmds : Table MemberFunc
  pub ns_path : List Bytes
  pub flags : ClassFlags
  pub ref_count : ℕ
  pub freed : Bool

-- The part of `ItclObjectInfo` that maps pointers to classes, and namespaces to classes.
pub record Info : Type 0 where
  pub classes : ClassId → Class
  pub namespace_classes : NsId → Option ClassId
  pub in_option_handling : Bool

-- A write to the fields of one class.
unfoldable pub update : Info → ClassId → (Class → Class) → Info
update i c f = record i { classes = λ d. if d == c then f (i.classes d) else i.classes d }

-- The base lists, as the iterator reads them.
abbrev pub bases_of : Info → ClassId → List ClassId
bases_of i c = (i.classes c).bases

-- `refCount++`
unfoldable pub preserve_class : ClassId → Info → Info
unfolding update
preserve_class c i = update i c (λ k. record k { ref_count = k.ref_count + 1 })

-- `if (refCount-- <= 1) ItclFreeClass(...)`
unfoldable pub release_class : ClassId → Info → Info
unfolding update
release_class c i = update i c (λ k. record k {
  ref_count = k.ref_count - 1;
  freed = if leb k.ref_count 1 then true else k.freed;
})
