-- ===== src/Lifecycle/Failure.antt =====
-- Destructors that fail: what is skipped, and what a second attempt does.
use mathlib.Core.List.{reverse}
use itcl.Prelude.{
  ℕ, ◌+◌, ◌≤◌, ◌≡◌, refl, ap, ◌∙◌, true, false, some, none, List, [], ◌∷◌, ◌++◌, map, length,
  distinct, Option,
}
use itcl.Classes.{ClassId}
use itcl.Hierarchy.Order.{Preorder, none}
use itcl.Lifecycle.{ClassCode, Code, ok, error, Progress, ended}
use itcl.Lifecycle.Unwind.{IsPlain}
use itcl.Lifecycle.Bodies.{bodies, all_succeed, raze-fails}
use itcl.Lifecycle.Raze.{raze}
use itcl.Lifecycle.Objects.{
  Object, returned, delete_object, delete_command, finish_destruct, finish_delete,
  class_is_destructed, call_delete_proc, destroy_object,
}
use itcl.Lifecycle.Destruct.{destruct_base}
use itcl.Lifecycle.Deletion.{created, destruct_base-Preorder}

-- An object that Itcl_DeleteObject could not delete: it is known and has its command.
abbrev pub undeleted : ClassId → List ClassId → List ClassId → Object
undeleted c ran over = record (created c ran) {
  is_deleted = true;
  is_destructed = true;
  oo_deleted = true;
  destruct_error = true;
  destructed = record { table = none; ran = over };
}

-- The same object after a second Itcl_DeleteObject.
abbrev pub deleted_later : ClassId → List ClassId → List ClassId → Object
deleted_later c ran over = record (undeleted c ran over) {
  is_renamed = true;
  class_destructed = true;
  has_oo = false;
  access_cmd = none;
  known = false;
  claims = 0;
}

-- An object whose command was deleted, although a destructor failed.
abbrev pub removed : ClassId → List ClassId → List ClassId → Object
removed c ran over = record (created c ran) {
  is_destructed = true;
  is_destroyed = true;
  is_renamed = true;
  class_destructed = true;
  access_cmd = none;
  known = false;
  claims = 0;
  destructed = record { table = none; ran = over };
}

module _ (code : ClassId → ClassCode) (runs : ClassId → Option Code) {c : ClassId}
    {out : List ClassId} (earlier later : List ClassId) (d : ClassId) where
  destruct_base-fails :
      IsPlain code runs
      → Preorder (λ k. (code k).bases) (c ∷ []) out
      → distinct (map (λ k. (code k).name) out) ≡ true
      → out ≡ earlier ++ d ∷ later
      → all_succeed runs earlier ≡ true
      → runs d ≡ some error
      → (fuel : ℕ) → 1 + length out ≤ fuel
      → (q : Progress) × (destruct_base code fuel false c (record { table = some []; ran = [] })
          ≡ ended error q)
        × (q.ran ≡ d ∷ reverse (bodies runs earlier))
  destruct_base-fails plain pre names split good bad fuel f =
      let nm : ClassId → ℕ = λ k. (code k).name in
      let p : Progress = record { table = some []; ran = [] } in
      let (q, e, r) = raze-fails runs nm earlier later d p good bad in
      (
        q,
        destruct_base-Preorder code runs fuel plain pre names f []
            ∙ ap (λ xs. raze nm runs xs p) split
            ∙ e,
        r,
      )

  -- A destructor of the hierarchy fails, and none before it in depth-first order. Itcl_DeleteObject
  -- runs the destructors up to it and none behind it, and returns an error, and the object stays known
  -- with its command. A second Itcl_DeleteObject succeeds and runs no destructor, so that those behind
  -- the failing one never run.
  pub delete_object-fails :
      IsPlain code runs
      → Preorder (λ k. (code k).bases) (c ∷ []) out
      → distinct (map (λ k. (code k).name) out) ≡ true
      → out ≡ earlier ++ d ∷ later
      → all_succeed runs earlier ≡ true
      → runs d ≡ some error
      → (fuel : ℕ) → 1 + length out ≤ fuel
      → (ran : List ClassId)
      → (delete_object code fuel (created c ran)
          ≡ returned error (undeleted c ran (d ∷ reverse (bodies runs earlier))))
        × (delete_object code fuel (undeleted c ran (d ∷ reverse (bodies runs earlier)))
            ≡ returned ok (deleted_later c ran (d ∷ reverse (bodies runs earlier))))
  unfolding delete_object
  delete_object-fails plain pre names split good bad fuel f ran =
      let (q, e, r) = destruct_base-fails plain pre names split good bad fuel f in
      let o : Object = record (created c ran) {
        is_deleted = true;
        is_destructed = true;
        claims = 2;
      } in
      (
        ap (λ x. finish_delete code fuel (finish_destruct o x)) e
            ∙ ap (λ xs. returned error (undeleted c ran xs)) r,
        refl,
      )

  -- The same destructors, when the command of the object is deleted, with errors to be ignored: the
  -- destructors behind the failing one do not run either, and the object is gone.
  pub delete_command-fails :
      IsPlain code runs
      → Preorder (λ k. (code k).bases) (c ∷ []) out
      → distinct (map (λ k. (code k).name) out) ≡ true
      → out ≡ earlier ++ d ∷ later
      → all_succeed runs earlier ≡ true
      → runs d ≡ some error
      → (fuel : ℕ) → 1 + length out ≤ fuel
      → (ran : List ClassId)
      → delete_command code fuel (created c ran)
        ≡ returned ok (removed c ran (d ∷ reverse (bodies runs earlier)))
  unfolding delete_command
  delete_command-fails plain pre names split good bad fuel f ran =
      let (q, e, r) = destruct_base-fails plain pre names split good bad fuel f in
      let o : Object = record (created c ran) { is_renamed = true; is_destructed = true } in
      ap
        (λ x.
          call_delete_proc code fuel destroy_object
            (class_is_destructed code fuel (finish_destruct o x)))
        e
      ∙ ap (λ xs. returned ok (removed c ran xs)) r
