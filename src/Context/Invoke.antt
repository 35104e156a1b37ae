-- ===== src/Context/Invoke.antt =====
-- What happens around the body of a method: ItclCheckCallMethod before it and ItclAfterCallMethod behind
-- it, generic/itclMethod.c. The table `frameContext` maps call frames to stacks of contexts, and TclOO
-- contexts to stacks of call frames.
use itcl.Prelude.{
  ℕ, ◌+◌, ◌-◌, Bool, true, false, ◌&&◌, Option, none, some, ◌==◌, leb, if◌then◌else◌, ◌>>=◌,
}
use itcl.Stack.{Stack, init_stack, push_stack, pop_stack, get_stack_size}
use itcl.Classes.{ClassId, NsId}
use itcl.Context.{ObjectId}

abbrev pub MemberId : Type 0
MemberId = ℕ

-- `ItclCallContext`, with the flags that the object had.
pub record MethodContext : Type 0 where
  pub object_flags : ℕ
  pub ns : NsId
  pub object : ObjectId
  pub member : MemberId
  pub ref_count : ℕ

-- `frameContext`; the contexts in memory, with the next free address; the tables `contextCache`, the
-- fields `callRefCount` and `flags` and the claims of objects; and `callRefCount` of classes.
pub record Calling : Type 0 where
  pub frame_context : ℕ → Option (Stack ℕ)
  pub contexts : ℕ → Option MethodContext
  pub next : ℕ
  pub cache : ObjectId → MemberId → Option ℕ
  pub flags : ObjectId → ℕ
  pub call_refs : ObjectId → ℕ
  pub claims : ObjectId → ℕ
  pub class_refs : ClassId → ℕ

-- A call of a method: the member and its class, the object, the TclOO context, the call frame, and the
-- current namespace.
pub record Invocation : Type 0 where
  pub member : MemberId
  pub icls : ClassId
  pub object : ObjectId
  pub context : ℕ
  pub frame : ℕ
  pub ns : NsId

abbrev pub set_at {ℓ} : {A : Type ℓ} → ℕ → A → (ℕ → A) → ℕ → A
set_at k v f = λ j. if j == k then v else f j

-- A chosen context, and the state with it.
pub record Chosen : Type 0 where
  pub id : ℕ
  pub state : Calling

abbrev pub fresh_context : Invocation → Calling → MethodContext
fresh_context v s = record {
  object_flags = s.flags v.object;
  ns = v.ns;
  object = v.object;
  member = v.member;
  ref_count = 1;
}

unfoldable pub put_context : ℕ → MethodContext → Calling → Chosen
put_context id c s = record {
  id = id;
  state = record s { contexts = set_at id (some c) s.contexts };
}

-- A context in new memory.
unfoldable pub allocate : Invocation → Calling → Chosen
unfolding put_context
allocate v s = put_context s.next (fresh_context v s) (record s { next = s.next + 1 })

-- A cached context is used again if it is free, or if the object has the same flags and the namespace
-- is the same.
unfoldable pub reuse : Invocation → Calling → ℕ → MethodContext → Chosen
unfolding put_context allocate
reuse v s id c =
    if c.ref_count == 0
    then put_context id (fresh_context v s) s
    else if c.object_flags == s.flags v.object && c.ns == v.ns
    then put_context id (record c { ref_count = c.ref_count + 1 }) s
    else allocate v s

unfoldable pub found_cached : Invocation → Calling → ℕ → Option MethodContext → Option Chosen
unfolding reuse
found_cached v s id none = none
found_cached v s id (some c) = some (reuse v s id c)

-- The entry of `contextCache`, which is made if there is none.
unfoldable pub choose : Invocation → Calling → Option ℕ → Option Chosen
unfolding found_cached allocate
choose v s none = some (
    allocate v (record s {
      cache = set_at v.object (set_at v.member (some s.next) (s.cache v.object)) s.cache;
    }))
choose v s (some id) = found_cached v s id (s.contexts id)

unfoldable pub push_entry : ℕ → Option (Stack ℕ) → Option (Stack ℕ)
unfolding push_stack init_stack
push_entry x none = push_stack x init_stack
push_entry x (some t) = push_stack x t

unfoldable pub push_at : ℕ → ℕ → Calling → Option Calling
unfolding push_entry
push_at k x s = do
  t ← push_entry x (s.frame_context k)
  some (record s { frame_context = set_at k (some t) s.frame_context })

abbrev pub enter_call : Invocation → Calling → Calling
enter_call v s = record s {
  call_refs = set_at v.object (s.call_refs v.object + 1) s.call_refs;
  claims = set_at v.object (s.claims v.object + 1) s.claims;
  class_refs = set_at v.icls (s.class_refs v.icls + 1) s.class_refs;
}

-- ItclCheckCallMethod for a method that is defined, with a TclOO context and enough arguments.
unfoldable pub check_call_method : Invocation → Calling → Option Calling
unfolding choose push_at
check_call_method v s = do
  k ← choose v s (s.cache v.object v.member)
  s' ← push_at v.frame k.id k.state
  s'' ← push_at v.context v.frame s'
  some (enter_call v s'')

-- What comes off a stack, and the entry that is left.
pub record Popped : Type 0 where
  pub value : ℕ
  pub entry : Option (Stack ℕ)

abbrev pub popped : Option ℕ × Stack ℕ → Option Popped
popped (none, t) = none
popped (some x, t) =
    some (record { value = x; entry = if get_stack_size t == 0 then none else some t })

-- An entry whose stack gets empty is deleted; a missing entry fails an assertion.
unfoldable pub pop_entry : Option (Stack ℕ) → Option Popped
unfolding pop_stack
pop_entry none = none
pop_entry (some t) = popped (pop_stack t)

-- The context with one use less; in its last use it is freed, unless the object caches a context for
-- the member.
abbrev pub left_context : Bool → Option ℕ → MethodContext → Option MethodContext
left_context true none c = none
left_context true (some x) c = some (record c { ref_count = c.ref_count - 1 })
left_context false x c = some (record c { ref_count = c.ref_count - 1 })

abbrev pub leave_with : Invocation → ℕ → ObjectId → Option MethodContext → Calling → Calling
leave_with v id o c s = record s {
  call_refs = set_at o (s.call_refs o - 1) s.call_refs;
  claims = set_at o (s.claims o - 1) s.claims;
  class_refs = set_at v.icls (s.class_refs v.icls - 1) s.class_refs;
  contexts = set_at id c s.contexts;
}

abbrev pub leave : Invocation → ℕ → MethodContext → Calling → Calling
leave v id c s =
    leave_with v id c.object (left_context (leb c.ref_count 1) (s.cache c.object c.member) c) s

unfoldable pub leave_context : Invocation → ℕ → Calling → Option MethodContext → Option Calling
leave_context v id s none = none
leave_context v id s (some c) = some (leave v id c s)

unfoldable pub after_call_method : Invocation → Calling → Option Calling
unfolding pop_entry leave_context
after_call_method v s = do
  f ← pop_entry (s.frame_context v.context)
  let s1 : Calling = record s { frame_context = set_at v.context f.entry s.frame_context }
  c ← pop_entry (s1.frame_context f.value)
  let s2 : Calling = record s1 { frame_context = set_at f.value c.entry s1.frame_context }
  leave_context v c.value s2 (s2.contexts c.value)

-- Calls one after the other, each with the calls that its body makes.
pub data CallTree : Type 0 where
  done : CallTree
  call : Invocation → CallTree → CallTree → CallTree

unfoldable pub run_calls : CallTree → Calling → Option Calling
unfolding check_call_method after_call_method
run_calls done s = some s
run_calls (call v body rest) s = do
  s1 ← check_call_method v s
  s2 ← run_calls body s1
  s3 ← after_call_method v s2
  run_calls rest s3
