-- ===== src/Linkage/Accounts.antt =====
-- Who deletes the client data given to generic/itclLinkage.c, and what Itcl_FindC then finds.
use itcl.Prelude.{
  ℕ, ◌+◌, ◌≡◌, refl, ap, Bool, true, false, ◌&&◌, Option, none, some, List, [], ◌∷◌, ◌++◌, arith,
  ◌==◌, if◌then◌else◌,
}
use itcl.Prelude.Bytes.{Bytes}
use itcl.Classes.{Table, find_entry}
use itcl.Linkage.{
  Cfunc, Registry, Registered, ok, null_pointer, already_defined, set_entry, get_registered_procs,
  owned, owned_by, with_arg, with_obj, store_entry, register_c, register_obj_c, delete_all, free_c,
}

-- How often a call of a delete procedure with some client data occurs.
abbrev pub count : ℕ × ℕ → List (ℕ × ℕ) → ℕ
count (f, d) [] = 0
count (f, d) ((g, e) ∷ xs) = (if (f == g) && (d == e) then 1 else 0) + count (f, d) xs

pub count-append : (p : ℕ × ℕ) (xs ys : List (ℕ × ℕ)) → count p (xs ++ ys) ≡ count p xs + count p ys
count-append (f, d) [] ys = omega arith
count-append (f, d) ((g, e) ∷ xs) ys = omega (arith, count-append (f, d) xs ys)

-- A replaced entry no longer owns its data, the new one does.
pub count-set_entry :
    (p : ℕ × ℕ) (k : Bytes) (c : Cfunc) (t : Table Cfunc)
    → count p (delete_all (set_entry k c t)) + count p (owned_by (find_entry k t))
      ≡ count p (delete_all t) + count p (owned c)
unfolding set_entry find_entry delete_all
count-set_entry p k c [] = omega (arith, count-append p (owned c) [])
count-set_entry p k c ((j, w) ∷ t) = ground (
  arith,
  count-set_entry p k c t,
  count-append p (owned w) (delete_all t),
  count-append p (owned c) (delete_all t),
  count-append p (owned w) (delete_all (set_entry k c t)),
)

-- A call of Itcl_RegisterC or of Itcl_RegisterObjC.
pub data Request : Type 0 where
  arg_style obj_style : Bytes → Option ℕ → ℕ → Option ℕ → Request

abbrev pub register : Request → Registry → Registered
register (arg_style name proc cd del) r = register_c name proc cd del r
register (obj_style name proc cd del) r = register_obj_c name proc cd del r

abbrev pub handed_over : Request → List (ℕ × ℕ)
handed_over (arg_style name proc cd none) = []
handed_over (arg_style name proc cd (some f)) = (f, cd) ∷ []
handed_over (obj_style name proc cd none) = []
handed_over (obj_style name proc cd (some f)) = (f, cd) ∷ []

abbrev pub registry : Registered → Registry
registry (ok r) = r
registry (null_pointer r) = r
registry (already_defined r) = r

abbrev pub taken : Registered → Request → List (ℕ × ℕ)
taken (ok r) q = handed_over q
taken _ q = []

-- The registry after some calls, and the client data of those that returned TCL_OK.
abbrev pub run : List Request → Registry → Registry
run [] r = r
run (q ∷ qs) r = run qs (registry (register q r))

abbrev pub accepted : List Request → Registry → List (ℕ × ℕ)
accepted [] r = []
accepted (q ∷ qs) r = taken (register q r) q ++ accepted qs (registry (register q r))

-- The calls of a delete procedure made so far, and those that are due.
held : ℕ × ℕ → Registry → ℕ
unfolding delete_all
held p r = count p r.deleted + count p (delete_all (get_registered_procs r.procs))

held-store :
    (p : ℕ × ℕ) (name : Bytes) (clash : Bool) (new : Cfunc) (t : Table Cfunc)
    (deleted : List (ℕ × ℕ)) (q : Request)
    → owned new ≡ handed_over q
    → held p (registry (store_entry name clash (find_entry name t) new t deleted))
      ≡ count p deleted
        + count p (delete_all t)
        + count p (taken (store_entry name clash (find_entry name t) new t deleted) q)
unfolding held store_entry
held-store p name true new t deleted q e = omega arith
held-store p name false new t deleted q e = omega (
  arith,
  ap (count p) e,
  count-set_entry p name new t,
  count-append p deleted (owned_by (find_entry name t)),
)

owned-with_arg :
    (name : Bytes) (proc cd : ℕ) (del : Option ℕ) (old : Option Cfunc)
    → owned (with_arg proc cd del old) ≡ handed_over (arg_style name (some proc) cd del)
unfolding owned with_arg
owned-with_arg name proc cd none none = refl
owned-with_arg name proc cd (some f) none = refl
owned-with_arg name proc cd none (some c) = refl
owned-with_arg name proc cd (some f) (some c) = refl

owned-with_obj :
    (name : Bytes) (proc cd : ℕ) (del : Option ℕ) (old : Option Cfunc)
    → owned (with_obj proc cd del old) ≡ handed_over (obj_style name (some proc) cd del)
unfolding owned with_obj
owned-with_obj name proc cd none none = refl
owned-with_obj name proc cd (some f) none = refl
owned-with_obj name proc cd none (some c) = refl
owned-with_obj name proc cd (some f) (some c) = refl

held-register :
    (p : ℕ × ℕ) (q : Request) (r : Registry)
    → held p (registry (register q r)) ≡ held p r + count p (taken (register q r) q)
unfolding held register_c register_obj_c
held-register p (arg_style name none cd del) r = omega arith
held-register p (obj_style name none cd del) r = omega arith
held-register p (arg_style name (some proc) cd del) r =
    held-store p name _ _ (get_registered_procs r.procs) r.deleted _
      (owned-with_arg name proc cd del (find_entry name (get_registered_procs r.procs)))
held-register p (obj_style name (some proc) cd del) r =
    held-store p name _ _ (get_registered_procs r.procs) r.deleted _
      (owned-with_obj name proc cd del (find_entry name (get_registered_procs r.procs)))

held-run :
    (p : ℕ × ℕ) (qs : List Request) (r : Registry)
    → held p (run qs r) ≡ held p r + count p (accepted qs r)
held-run p [] r = omega arith
held-run p (q ∷ qs) r = omega (
  arith,
  held-register p q r,
  held-run p qs (registry (register q r)),
  count-append p (taken (register q r) q) (accepted qs (registry (register q r))),
)

abbrev pub no_procs : Registry
no_procs = record { procs = none; deleted = [] }

-- After any calls of Itcl_RegisterC and Itcl_RegisterObjC in a new interpreter, and its deletion,
-- each delete procedure has been called with each client data exactly as often as a successful call
-- handed the two over: no client data is leaked or freed twice.
pub free_c-accounts :
    (p : ℕ × ℕ) (qs : List Request)
    → count p (free_c (run qs no_procs)).deleted ≡ count p (accepted qs no_procs)
unfolding held free_c
free_c-accounts p qs = omega (
  arith,
  held-run p qs no_procs,
  count-append p (run qs no_procs).deleted
      (delete_all (get_registered_procs (run qs no_procs).procs)),
)
