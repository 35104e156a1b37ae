-- ===== src/Linkage/Finding.antt =====
-- What Itcl_FindC of generic/itclLinkage.c finds after a registration.
use itcl.Prelude.{
  ℕ, ◌≡◌, refl, ap, ◌∙◌, Bool, true, false, not, ◌&&◌, ◌||◌, Option, none, some, List, [], ◌∷◌,
  arith, if◌then◌else◌, Bool-cases, inl, inr,
}
use itcl.Prelude.Bytes.{Bytes, name_eq, name_eq_iff}
use itcl.Classes.{Table, find_entry}
use itcl.Linkage.{
  Cfunc, Registry, set_entry, get_registered_procs, is_other, with_arg, with_obj, store_entry,
  clashes, register_c, register_obj_c, find_c, Found, found_entry, is_some,
}
use itcl.Linkage.Accounts.{Request, arg_style, obj_style, register, registry}

find_entry-set_entry :
    (n k : Bytes) (c : Cfunc) (t : Table Cfunc)
    → find_entry n (set_entry k c t) ≡ (if name_eq k n then some c else find_entry n t)
unfolding find_entry set_entry
find_entry-set_entry n k c [] = refl
find_entry-set_entry n k c ((j, w) ∷ t) = elim (Bool-cases (name_eq j k)) [
  | inl e ↦ ground (arith, (name_eq_iff j k).0 e)
  | inr e ↦ ground (arith, find_entry-set_entry n k c t, name_eq_iff j n, name_eq_iff k n)
]

-- A call is accepted if it has a procedure and the name has no other one of the same style.
abbrev pub accepts : Request → Found → Bool
accepts (arg_style name none cd del) f = false
accepts (arg_style name (some proc) cd del) f = not (is_other f.arg_proc proc)
accepts (obj_style name none cd del) f = false
accepts (obj_style name (some proc) cd del) f = not (is_other f.obj_proc proc)

abbrev pub name_of : Request → Bytes
name_of (arg_style name proc cd del) = name
name_of (obj_style name proc cd del) = name

-- The new procedure and client data, and the old procedure of the other style.
abbrev pub redefined : Request → Found → Found
redefined (arg_style name proc cd del) f = record {
  arg_proc = proc;
  obj_proc = f.obj_proc;
  c_data = some cd;
  known = true;
}
redefined (obj_style name proc cd del) f = record {
  arg_proc = f.arg_proc;
  obj_proc = proc;
  c_data = some cd;
  known = true;
}

found-if :
    (b : Bool) (c : Cfunc) (o : Option Cfunc)
    → found_entry (if b then some c else o) ≡ (if b then found_entry (some c) else found_entry o)
found-if true c o = refl
found-if false c o = refl

found-store :
    (name n : Bytes) (clash : Bool) (old : Option Cfunc) (new : Cfunc) (t : Table Cfunc)
    (deleted : List (ℕ × ℕ))
    → find_c n (registry (store_entry name clash old new t deleted)) ≡ (
        if not clash && name_eq name n
        then found_entry (some new)
        else found_entry (find_entry n t))
unfolding store_entry find_c
found-store name n true old new t deleted = refl
found-store name n false old new t deleted =
    ap found_entry (find_entry-set_entry n name new t)
    ∙ found-if (name_eq name n) new (find_entry n t)

abbrev found_with : Option ℕ → Option ℕ → ℕ → Bool → Found
found_with arg obj cd b = record { arg_proc = arg; obj_proc = obj; c_data = some cd; known = b }

redefined-with_arg :
    (name : Bytes) (proc cd : ℕ) (del : Option ℕ) (old : Option Cfunc)
    → found_entry (some (with_arg proc cd del old))
      ≡ redefined (arg_style name (some proc) cd del) (found_entry old)
unfolding found_entry with_arg
redefined-with_arg name proc cd del none = refl
redefined-with_arg name proc cd del (some c) = refl

found-known :
    (obj arg : Option ℕ) (cd : ℕ)
    → found_with arg obj cd (is_some arg || true) ≡ found_with arg obj cd true
found-known obj none cd = refl
found-known obj (some p) cd = refl

redefined-with_obj :
    (name : Bytes) (proc cd : ℕ) (del : Option ℕ) (old : Option Cfunc)
    → found_entry (some (with_obj proc cd del old))
      ≡ redefined (obj_style name (some proc) cd del) (found_entry old)
unfolding found_entry with_obj
redefined-with_obj name proc cd del none = refl
redefined-with_obj name proc cd del (some c) = found-known (some proc) c.arg_cmd_proc cd

accepts-clashes :
    (name : Bytes) (proc cd : ℕ) (del : Option ℕ) (old : Option Cfunc)
    → (not (clashes (λ c. c.arg_cmd_proc) proc old)
        ≡ accepts (arg_style name (some proc) cd del) (found_entry old))
      × (not (clashes (λ c. c.obj_cmd_proc) proc old)
          ≡ accepts (obj_style name (some proc) cd del) (found_entry old))
unfolding found_entry
accepts-clashes name proc cd del none = (refl, refl)
accepts-clashes name proc cd del (some c) = (refl, refl)

-- The two branches of a call, with the guard and the new entry as Itcl_FindC shows them.
found-cases :
    (name n : Bytes) (ok? ok?' : Bool) (t : Table Cfunc) (new : Found) (f : Found → Found)
    → ok? ≡ ok?'
    → new ≡ f (found_entry (find_entry name t))
    → (if ok? && name_eq name n then new else found_entry (find_entry n t)) ≡ (
        if ok?' && name_eq name n
        then f (found_entry (find_entry n t))
        else found_entry (find_entry n t))
found-cases name n ok? ok?' t new f e h = elim (Bool-cases (name_eq name n)) [
  | inl k ↦ cc ((name_eq_iff name n).0 k)
  | inr k ↦ ground (arith, e, k)
]

-- After a call of Itcl_RegisterC or Itcl_RegisterObjC, Itcl_FindC finds the new procedure and client
-- data with the old procedure of the other style, if the call has a procedure and none of the same
-- style but another procedure was known under the name; otherwise, and for every other name, it finds
-- what it found before.
pub find_c-register :
    (q : Request) (n : Bytes) (r : Registry)
    → find_c n (registry (register q r)) ≡ (
        if accepts q (find_c (name_of q) r) && name_eq (name_of q) n
        then redefined q (find_c n r)
        else find_c n r)
unfolding register_c register_obj_c find_c
find_c-register (arg_style name none cd del) n r = refl
find_c-register (obj_style name none cd del) n r = refl
find_c-register (arg_style name (some proc) cd del) n r =
    let t = get_registered_procs r.procs in
    let old = find_entry name t in
    found-store name n (clashes (λ c. c.arg_cmd_proc) proc old) old (with_arg proc cd del old) t
      r.deleted
    ∙ found-cases name n _ _ t _ (redefined (arg_style name (some proc) cd del))
        ((accepts-clashes name proc cd del old).0) (redefined-with_arg name proc cd del old)
find_c-register (obj_style name (some proc) cd del) n r =
    let t = get_registered_procs r.procs in
    let old = find_entry name t in
    found-store name n (clashes (λ c. c.obj_cmd_proc) proc old) old (with_obj proc cd del old) t
      r.deleted
    ∙ found-cases name n _ _ t _ (redefined (obj_style name (some proc) cd del))
        ((accepts-clashes name proc cd del old).1) (redefined-with_obj name proc cd del old)
