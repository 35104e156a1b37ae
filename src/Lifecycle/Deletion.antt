-- ===== src/Lifecycle/Deletion.antt =====
-- Deleting an object whose destructors call no destructor themselves.
use mathlib.Core.List.{reverse}
use itcl.Prelude.{
  ℕ, ◌+◌, ◌≤◌, ◌≡◌, refl, ap, ◌∙◌, sym, true, false, Option, none, some, List, [], ◌∷◌, map, length,
  distinct,
}
use itcl.Classes.{ClassId}
use itcl.Hierarchy.Order.{Preorder, none}
use itcl.Lifecycle.{ClassCode, Code, ok, Progress, ended}
use itcl.Lifecycle.Destruct.{destruct, destruct_base, destruct_bases, with_bases}
use itcl.Lifecycle.Chains.{and_then-ended, and_then-congr}
use itcl.Lifecycle.Build.{fresh-distinct}
use itcl.Lifecycle.Raze.{raze}
use itcl.Lifecycle.Unwind.{IsPlain, destruct_bases-Preorder}
use itcl.Lifecycle.Bodies.{bodies, all_succeed, raze-succeeds}
use itcl.Lifecycle.Objects.{
  Object, returned, new_object, delete_object, finish_destruct, finish_delete,
}

module _ (code : ClassId → ClassCode) (runs : ClassId → Option Code) (fuel : ℕ) where
  pub destruct_base-Preorder :
      {c : ClassId} {out : List ClassId}
      → IsPlain code runs
      → Preorder (λ d. (code d).bases) (c ∷ []) out
      → distinct (map (λ d. (code d).name) out) ≡ true
      → 1 + length out ≤ fuel
      → (before : List ClassId)
      → destruct_base code fuel false c (record { table = some []; ran = before })
        ≡ raze (λ d. (code d).name) runs out (record { table = some []; ran = before })
  unfolding destruct_base destruct_bases
  destruct_base-Preorder {c} {out} plain pre names f before =
      let p : Progress = record { table = some []; ran = before } in
      sym (and_then-ended (destruct code fuel with_bases c p))
      ∙ and_then-congr (destruct code fuel with_bases c p) (ended ok)
          (destruct_bases code (destruct code fuel) []) (λ q e. refl)
      ∙ destruct_bases-Preorder code runs plain pre fuel [] p [] f
          (fresh-distinct (λ d. (code d).name) out names) refl (λ n h. h)

-- An object that is constructed: `ran` are the classes whose constructors have run.
abbrev pub created : ClassId → List ClassId → Object
created c ran = record (new_object c) {
  constructed = record { table = none; ran = ran };
  claims = 1;
}

-- An object that Itcl_DeleteObject has deleted, without claims: its memory is free.
abbrev pub deleted : ClassId → List ClassId → List ClassId → Object
deleted c ran over = record (created c ran) {
  is_deleted = true;
  is_destructed = true;
  is_renamed = true;
  class_destructed = true;
  has_oo = false;
  has_vars = false;
  access_cmd = none;
  known = false;
  claims = 0;
  destructed = record { table = none; ran = over };
}

-- The destructors of a class and its ancestors neither call a destructor nor fail, and no two of the
-- classes have one simple name. Itcl_DeleteObject then runs each of the destructors once, in
-- depth-first order, the most specific first and bases from left to right, and leaves an object that is
-- not known, without command, variables and claims.
pub delete_object-Razes :
    (code : ClassId → ClassCode) (runs : ClassId → Option Code) {c : ClassId} {out : List ClassId}
    → IsPlain code runs
    → Preorder (λ d. (code d).bases) (c ∷ []) out
    → distinct (map (λ d. (code d).name) out) ≡ true
    → all_succeed runs out ≡ true
    → (fuel : ℕ) → 1 + length out ≤ fuel
    → (ran : List ClassId)
    → delete_object code fuel (created c ran)
      ≡ returned ok (deleted c ran (reverse (bodies runs out)))
unfolding delete_object
delete_object-Razes code runs {c} {out} plain pre names good fuel f ran =
    let (q, e, r) =
      raze-succeeds runs (λ d. (code d).name) out (record { table = some []; ran = [] }) good in
    let o : Object = record (created c ran) {
      is_deleted = true;
      is_destructed = true;
      claims = 2;
    } in
    ap (λ x. finish_delete code fuel (finish_destruct o x))
      (destruct_base-Preorder code runs fuel plain pre names f [] ∙ e)
    ∙ ap (λ xs. returned ok (deleted c ran xs)) r
