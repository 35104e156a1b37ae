-- ===== src/Lifecycle/Creation.antt =====
-- Creating an object whose constructors call no constructor themselves.
use mathlib.Core.List.{reverse}
use itcl.Prelude.{
  ℕ, ◌+◌, ◌*◌, ◌≤◌, ◌≡◌, refl, ap, ◌∙◌, sym, true, false, Option, none, some, List, [], ◌∷◌, ◌++◌,
  map, arith, length, length-append, distinct,
}
use itcl.Classes.{ClassId}
use itcl.Hierarchy.Order.{Preorder, none}
use itcl.Lifecycle.{ClassCode, Script, Code, ok, error, Progress, ended}
use itcl.Lifecycle.Construct.{construct, construct_bases, construct_one, construct_absent}
use itcl.Lifecycle.Destruct.{destruct_base}
use itcl.Lifecycle.Chains.{and_then-ended, settle, settle-inv, settle-inv_error}
use itcl.Lifecycle.Build.{build, fresh-distinct}
use itcl.Lifecycle.Implicit.{IsPlain, construct_bases-Preorder}
use itcl.Lifecycle.Unwind
use itcl.Lifecycle.Bodies.{bodies, all_succeed, build-succeeds, build-fails, raze-succeeds}
use itcl.Lifecycle.Objects.{
  Object, returned, new_object, create_object, construct_object, finish_create, error_return,
  delete_command, delete_variables, finish_destruct, class_is_destructed, call_delete_proc,
  destroy_object,
}
use itcl.Lifecycle.Deletion.{created, destruct_base-Preorder}

abbrev name_in : (ClassId → ClassCode) → ClassId → ℕ
name_in code c = (code c).name

module _ (code : ClassId → ClassCode) (fuel : ℕ) where
  cleanup : Option Script → Object → Object
  unfolding delete_variables
  cleanup none o = o
  cleanup (some body) o = delete_variables o

  construct_object-absent :
      (c : ClassId) (s : Option Script)
      → construct_object code fuel (new_object c) s
        ≡ finish_create code fuel
            (cleanup s)
            (new_object c)
            (construct_absent code (construct code fuel) c s (record { table = some []; ran = [] }))
  unfolding construct_object construct_absent cleanup
  construct_object-absent c none = refl
  construct_object-absent c (some body) = refl

module _ (code : ClassId → ClassCode) (runs : ClassId → Option Code) (fuel : ℕ) {c : ClassId}
    {out : List ClassId} where
  absent-Preorder :
      IsPlain code runs
      → Preorder (λ d. (code d).bases) (c ∷ []) out
      → distinct (map (name_in code) out) ≡ true
      → 2 * length out ≤ fuel
      → settle (
          construct_absent code
            (construct code fuel)
            c
            (code c).constructor
            (record { table = some []; ran = [] }))
        ≡ build (name_in code) runs out (record { table = some []; ran = [] })
  unfolding construct_bases construct_one
  absent-Preorder plain pre names f =
      let p : Progress = record { table = some []; ran = [] } in
      ap settle (
        sym (and_then-ended (construct_absent code (construct code fuel) c (code c).constructor p)))
      ∙ construct_bases-Preorder code runs plain pre fuel [] p [] f
          (fresh-distinct (name_in code) out names) refl (λ n h. h)

  -- The constructors of a class and its ancestors neither call a constructor nor fail, and no two of
  -- the classes have one simple name. ItclCreateObject then runs each of the constructors once, in the
  -- reverse of the depth-first order, so that a class comes after its bases, and leaves a known object
  -- with one claim.
  pub create_object-Builds :
      IsPlain code runs
      → Preorder (λ d. (code d).bases) (c ∷ []) out
      → distinct (map (name_in code) out) ≡ true
      → all_succeed runs out ≡ true
      → 2 * length out ≤ fuel
      → create_object code fuel c ≡ returned ok (created c (bodies runs out ++ []))
  unfolding create_object finish_create
  create_object-Builds plain pre names good f =
      let p : Progress = record { table = some []; ran = [] } in
      let (q, e, r) = build-succeeds runs (name_in code) out p good in
      let s = (code c).constructor in
      let x = construct_absent code (construct code fuel) c s p in
      construct_object-absent code fuel c s
      ∙ ap (finish_create code fuel (cleanup code fuel s) (new_object c))
          (settle-inv x q (absent-Preorder plain pre names f ∙ e))
      ∙ ap (λ xs. returned ok (created c xs)) r

-- An object whose construction failed: its memory is free.
abbrev pub abandoned : ClassId → List ClassId → List ClassId → Object
abandoned c ran over = record (new_object c) {
  is_destructed = true;
  is_destroyed = true;
  is_renamed = true;
  class_destructed = true;
  has_vars = false;
  access_cmd = none;
  known = false;
  claims = 0;
  constructed = record { table = none; ran = ran };
  destructed = record { table = none; ran = over };
}

module _ (code : ClassId → ClassCode) (fuel : ℕ) where
  -- The error path, once the destructors have ended without an error.
  give_up-Razes :
      (c : ClassId) (s : Option Script) (p q : Progress)
      → destruct_base code fuel false c (record { table = some []; ran = [] }) ≡ ended ok q
      → finish_create code fuel (cleanup code fuel s) (new_object c) (ended error p)
        ≡ returned error (abandoned c p.ran q.ran)
  unfolding finish_create delete_command cleanup
  give_up-Razes c none p q e =
      let o : Object = record (new_object c) {
        is_renamed = true;
        is_destructed = true;
        constructed = p;
      } in
      ap
        (λ x. error_return code fuel (
          call_delete_proc code fuel destroy_object
            (class_is_destructed code fuel (finish_destruct o x))))
        e
  give_up-Razes c (some body) p q e =
      let o : Object = record (new_object c) {
        is_renamed = true;
        is_destructed = true;
        has_vars = false;
        constructed = p;
      } in
      ap
        (λ x. error_return code fuel (
          call_delete_proc code fuel destroy_object
            (class_is_destructed code fuel (finish_destruct o x))))
        e

  -- A constructor of the hierarchy fails, and none of the classes behind it in depth-first order, while
  -- all destructors succeed, and neither calls one of its kind. ItclCreateObject then returns an error
  -- after the failing constructor: the constructors of the classes before it have not run, but the
  -- destructors of all classes do, also of those that were never constructed, and nothing is left of
  -- the object.
  pub create_object-fails :
      (runs over : ClassId → Option Code) (later earlier : List ClassId) (c d : ClassId)
      {out : List ClassId}
      → IsPlain code runs
      → Unwind.IsPlain code over
      → Preorder (λ k. (code k).bases) (c ∷ []) out
      → distinct (map (name_in code) out) ≡ true
      → out ≡ later ++ d ∷ earlier
      → all_succeed runs earlier ≡ true
      → runs d ≡ some error
      → all_succeed over out ≡ true
      → 2 * length out ≤ fuel
      → create_object code fuel c
        ≡ returned error (abandoned c (d ∷ bodies runs earlier ++ []) (reverse (bodies over out)))
  unfolding create_object
  create_object-fails runs over later earlier c d {out} plain plain' pre names split good bad calm
        f =
      let p : Progress = record { table = some []; ran = [] } in
      let s = (code c).constructor in
      let x = construct_absent code (construct code fuel) c s p in
      let (m, em, rm) = settle-inv_error x _ (
        absent-Preorder code runs fuel plain pre names f
        ∙ ap (λ xs. build (name_in code) runs xs p) split
        ∙ build-fails runs (name_in code) later earlier d p good bad) in
      let (q, e, r) = raze-succeeds over (name_in code) out p calm in
      construct_object-absent code fuel c s
      ∙ ap (finish_create code fuel (cleanup code fuel s) (new_object c)) em
      ∙ give_up-Razes c s m q
          (destruct_base-Preorder code over fuel plain' pre names (enough out split f) [] ∙ e)
      ∙ ap (λ xs. returned error (abandoned c xs q.ran)) rm
      ∙ ap (λ xs. returned error (abandoned c (d ∷ bodies runs earlier ++ []) xs)) r
    where
      enough :
          (out : List ClassId)
          → out ≡ later ++ d ∷ earlier
          → 2 * length out ≤ fuel
          → 1 + length out ≤ fuel
      enough out split f = omega (arith, ap length split, length-append later (d ∷ earlier))
