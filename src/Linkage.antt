-- ===== src/Linkage.antt =====
-- The registry of C procedures of generic/itclLinkage.c. A pointer to a procedure or to client data
-- is a number; the calls of delete procedures are recorded in order.
pub mod Accounts
pub mod Finding
use itcl.Prelude.{
  ℕ, Bool, true, false, not, ◌||◌, Option, none, some, List, [], ◌∷◌, ◌++◌, ◌==◌, if◌then◌else◌,
}
use itcl.Prelude.Bytes.{Bytes, name_eq}
use itcl.Classes.{Table, find_entry}

-- `ItclCfunc`
pub record Cfunc : Type 0 where
  pub arg_cmd_proc : Option ℕ
  pub obj_cmd_proc : Option ℕ
  pub client_data : ℕ
  pub delete_proc : Option ℕ

-- The association "itcl_RegC" of an interpreter, and the calls `deleteProc(clientData)` so far.
pub record Registry : Type 0 where
  pub procs : Option (Table Cfunc)
  pub deleted : List (ℕ × ℕ)

pub data Registered : Type 0 where
  ok : Registry → Registered
  null_pointer : Registry → Registered
  already_defined : Registry → Registered

-- `Tcl_SetHashValue` on the entry for a name, which is made if it is new.
unfoldable pub set_entry {ℓ} : {V : Type ℓ} → Bytes → V → List (Bytes × V) → List (Bytes × V)
set_entry k v [] = (k, v) ∷ []
set_entry k v ((j, w) ∷ t) = if name_eq j k then (j, v) ∷ t else (j, w) ∷ set_entry k v t

-- The table, which is made if the interpreter has none.
abbrev pub get_registered_procs : Option (Table Cfunc) → Table Cfunc
get_registered_procs none = []
get_registered_procs (some t) = t

-- `if (cfunc->deleteProc != NULL) (*cfunc->deleteProc)(cfunc->clientData);`
unfoldable pub owned : Cfunc → List (ℕ × ℕ)
owned c = elim c.delete_proc [ none ↦ [] | some f ↦ (f, c.client_data) ∷ [] ]

-- `p != NULL && p != proc`
abbrev pub is_other : Option ℕ → ℕ → Bool
is_other none proc = false
is_other (some p) proc = not (p == proc)

-- The handlers of an entry when one of a style is set.
unfoldable pub with_arg : ℕ → ℕ → Option ℕ → Option Cfunc → Cfunc
with_arg proc cd del none = record {
  arg_cmd_proc = some proc;
  obj_cmd_proc = none;
  client_data = cd;
  delete_proc = del;
}
with_arg proc cd del (some c) = record c {
  arg_cmd_proc = some proc;
  client_data = cd;
  delete_proc = del;
}

unfoldable pub with_obj : ℕ → ℕ → Option ℕ → Option Cfunc → Cfunc
with_obj proc cd del none = record {
  arg_cmd_proc = none;
  obj_cmd_proc = some proc;
  client_data = cd;
  delete_proc = del;
}
with_obj proc cd del (some c) = record c {
  obj_cmd_proc = some proc;
  client_data = cd;
  delete_proc = del;
}

-- What is deleted when the value of an entry is replaced.
abbrev pub owned_by : Option Cfunc → List (ℕ × ℕ)
unfolding owned
owned_by none = []
owned_by (some c) = owned c

-- Both procedures after the look-up: a clash is an error, else the entry gets its new value.
unfoldable pub store_entry :
    Bytes → Bool → Option Cfunc → Cfunc → Table Cfunc → List (ℕ × ℕ) → Registered
unfolding owned set_entry
store_entry name true old new t deleted =
    already_defined (record { procs = some t; deleted = deleted })
store_entry name false old new t deleted =
    ok (record { procs = some (set_entry name new t); deleted = deleted ++ owned_by old })

abbrev pub clashes : (Cfunc → Option ℕ) → ℕ → Option Cfunc → Bool
clashes handler proc none = false
clashes handler proc (some c) = is_other (handler c) proc

unfoldable pub register_c : Bytes → Option ℕ → ℕ → Option ℕ → Registry → Registered
unfolding store_entry with_arg find_entry
register_c name none cd del r = null_pointer r
register_c name (some proc) cd del r =
    let t = get_registered_procs r.procs in
    let old = find_entry name t in
    store_entry name (clashes (λ c. c.arg_cmd_proc) proc old) old (with_arg proc cd del old) t
      r.deleted

unfoldable pub register_obj_c : Bytes → Option ℕ → ℕ → Option ℕ → Registry → Registered
unfolding store_entry with_obj find_entry
register_obj_c name none cd del r = null_pointer r
register_obj_c name (some proc) cd del r =
    let t = get_registered_procs r.procs in
    let old = find_entry name t in
    store_entry name (clashes (λ c. c.obj_cmd_proc) proc old) old (with_obj proc cd del old) t
      r.deleted

-- What Itcl_FindC returns: the two handlers, the client data (NULL is `none`), and whether the name
-- is known.
pub record Found : Type 0 where
  pub arg_proc : Option ℕ
  pub obj_proc : Option ℕ
  pub c_data : Option ℕ
  pub known : Bool

abbrev pub is_some {ℓ} : {A : Type ℓ} → Option A → Bool
is_some none = false
is_some (some a) = true

unfoldable pub found_entry : Option Cfunc → Found
found_entry none = record { arg_proc = none; obj_proc = none; c_data = none; known = false }
found_entry (some c) = record {
  arg_proc = c.arg_cmd_proc;
  obj_proc = c.obj_cmd_proc;
  c_data = some c.client_data;
  known = is_some c.arg_cmd_proc || is_some c.obj_cmd_proc;
}

unfoldable pub find_c : Bytes → Registry → Found
unfolding found_entry find_entry
find_c name r = found_entry (find_entry name (get_registered_procs r.procs))

-- The deletions of ItclFreeC, entry by entry.
unfoldable pub delete_all : Table Cfunc → List (ℕ × ℕ)
unfolding owned
delete_all [] = []
delete_all ((k, c) ∷ t) = owned c ++ delete_all t

-- The interpreter is deleted, and with it the association.
unfoldable pub free_c : Registry → Registry
unfolding delete_all
free_c r = record { procs = none; deleted = r.deleted ++ delete_all (get_registered_procs r.procs) }
