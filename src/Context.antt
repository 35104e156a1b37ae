-- ===== src/Context.antt =====
-- The contexts of call frames, Itcl_SetContext, Itcl_UnsetContext and Itcl_GetContext of
-- generic/itclMethod.c. Each context is in one stack only, so a stack holds contexts, not pointers.
pub mod Frames
pub mod Invoke
pub mod Entries
pub mod Memory
pub mod Choice
pub mod Balance
pub mod Returns
use itcl.Prelude.{
  ℕ, ◌-◌, ◌≡◌, Bool, true, false, Option, none, some, List, [], ◌∷◌, ◌==◌, ltb, if◌then◌else◌,
}
use itcl.Stack.{Stack, init_stack, push_stack, pop_stack, peek_stack, get_stack_size}
use itcl.Classes.{ClassId, NsId}

abbrev pub ObjectId : Type 0
ObjectId = ℕ

abbrev pub FrameId : Type 0
FrameId = ℕ

-- `ItclCallContext`: `ioPtr`, `imPtr->iclsPtr`, ITCL_OBJECT_ROOT_METHOD, `refCount`.
pub record CallContext : Type 0 where
  pub object : Option ObjectId
  pub member_class : Option ClassId
  pub root_method : Bool
  pub ref_count : ℕ

-- What the three read: the stacks of the frames, the classes of namespaces, `currIoPtr`, the class of
-- an object, and whether a class has its namespace.
pub record Calls : Type 0 where
  pub frame_context : FrameId → Option (Stack CallContext)
  pub namespace_classes : NsId → Option ClassId
  pub curr_object : Option ObjectId
  pub class_of : ObjectId → ClassId
  pub has_namespace : ClassId → Bool

-- A panic ends the process; a fault is a NULL pointer that is followed, or a write out of bounds.
pub data Outcome (A : Type 0) : Type 0 where
  ok : A → Outcome A
  error panic fault : Outcome A

unfoldable pub set_frame : FrameId → Option (Stack CallContext) → Calls → Calls
set_frame f v s = record s { frame_context = λ g. if g == f then v else s.frame_context g }

abbrev pub new_context : Option ObjectId → CallContext
new_context io = record { object = io; member_class = none; root_method = false; ref_count = 1 }

unfoldable pub pushed_first : FrameId → Calls → Option (Stack CallContext) → Outcome Calls
unfolding set_frame
pushed_first f s none = fault
pushed_first f s (some t) = ok (set_frame f (some t) s)

-- The frame of the call, and the entry that it has.
unfoldable pub set_new :
    FrameId → Option ObjectId → Option (Stack CallContext) → Calls → Outcome Calls
unfolding pushed_first push_stack init_stack
set_new f io (some t) s = panic
set_new f io none s = pushed_first f s (push_stack (new_context io) init_stack)

unfoldable pub set_context : FrameId → Option ObjectId → Calls → Outcome Calls
unfolding set_new
set_context f io s = set_new f io (s.frame_context f) s

unfoldable pub drop_context :
    FrameId → Calls → Option CallContext × Stack CallContext → Outcome Calls
unfolding set_frame
drop_context f s (none, t) = if ltb 0 (get_stack_size t) then panic else fault
drop_context f s (some c, t) =
    if ltb 0 (get_stack_size t)
    then panic
    else if ltb 1 c.ref_count
    then panic
    else ok (set_frame f none s)

unfoldable pub unset_entry : FrameId → Calls → Option (Stack CallContext) → Outcome Calls
unfolding drop_context pop_stack
unset_entry f s none = fault
unset_entry f s (some t) = drop_context f s (pop_stack t)

unfoldable pub unset_context : FrameId → Calls → Outcome Calls
unfolding unset_entry
unset_context f s = unset_entry f s (s.frame_context f)

-- What Itcl_GetContext returns with TCL_OK.
pub record Got : Type 0 where
  pub icls : ClassId
  pub object : Option ObjectId

abbrev pub or_current : Option ObjectId → Option ObjectId → Option ObjectId
or_current none curr = curr
or_current (some o) curr = some o

-- A context on top of the stack of the frame.
unfoldable pub got_member : Calls → Option ObjectId → Option ClassId → Outcome Got
got_member s io (some k) = ok (record { icls = k; object = or_current io s.curr_object })
got_member s none none = fault
got_member s (some o) none = ok (record { icls = s.class_of o; object = some o })

unfoldable pub got_root : Calls → Option ObjectId → Outcome Got
got_root s none = fault
got_root s (some o) = ok (record { icls = s.class_of o; object = some o })

unfoldable pub from_context : Calls → Option CallContext → Outcome Got
unfolding got_member got_root
from_context s none = fault
from_context s (some c) =
    if c.root_method then got_root s c.object else got_member s c.object c.member_class

-- No context: the class of the current namespace, with the current object.
unfoldable pub from_namespace : Calls → Option ClassId → Outcome Got
from_namespace s none = error
from_namespace s (some k) =
    ok (record { icls = k; object = if s.has_namespace k then s.curr_object else none })

unfoldable pub get_from : Calls → NsId → Option (Stack CallContext) → Outcome Got
unfolding from_context from_namespace peek_stack
get_from s ns none = from_namespace s (s.namespace_classes ns)
get_from s ns (some t) = from_context s (peek_stack t)

unfoldable pub get_context : FrameId → NsId → Calls → Outcome Got
unfolding get_from
get_context f ns s = get_from s ns (s.frame_context f)
