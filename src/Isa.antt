-- ===== src/Isa.antt =====
-- The method `isa` of objects: Itcl_BiIsaCmd of generic/itclBuiltin.c and Itcl_ObjectIsa of
-- generic/itclObject.c. `Itcl_FindClass`, which may load a class, is a parameter.
pub mod Answer
use itcl.Prelude.{ℕ, Bool, true, false, Option, none, some, List, [], ◌∷◌, ◌==◌, has}
use itcl.Prelude.Bytes.{Bytes}
use itcl.Classes.{ClassId, Info}
use itcl.Chain.{ClassContext}

pub data IsaError : Type 0 where
  no_context improper_usage wrong_args no_class : IsaError

pub data IsaResult : Type 0 where
  answer : Bool → IsaResult
  failed : IsaError → IsaResult

-- `Itcl_FindClass` with autoload: the class of a name, and the records that it leaves.
abbrev pub FindClass : Type 0
FindClass = Bytes → Info → Info × Option ClassId

-- `Itcl_ObjectIsa`, for the class of the object.
unfoldable pub object_isa : Info → Option ClassId → ClassId → Bool
object_isa i none icls = false
object_isa i (some k) icls = has icls (i.classes k).heritage

abbrev pub isa_found : ClassId → Info × Option ClassId → Info × IsaResult
isa_found k (i, none) = (i, failed no_class)
isa_found k (i, some icls) = (i, answer (object_isa i (some k) icls))

-- The test of `objc`, and what follows.
abbrev pub isa_words : FindClass → ClassId → List Bytes → Info → Info × IsaResult
isa_words find k (cmd ∷ name ∷ []) i = isa_found k (find name i)
isa_words find k _ i = (i, failed wrong_args)

abbrev pub isa_object : FindClass → Option ClassId → List Bytes → Info → Info × IsaResult
isa_object find none words i = (i, failed improper_usage)
isa_object find (some k) words i = isa_words find k words i

-- `isa` in a context, which `Itcl_GetContext` finds or not.
unfoldable pub isa_cmd : FindClass → Option ClassContext → List Bytes → Info → Info × IsaResult
unfolding object_isa
isa_cmd find none words i = (i, failed no_context)
isa_cmd find (some c) words i = isa_object find c.object_class words i
