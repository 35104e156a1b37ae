-- ===== src/Lifecycle/Once.antt =====
-- Destructors run at most once in the life of an object, whatever is done to it afterwards.
use mathlib.Core.Path.{subst}
use itcl.Prelude.{
  ◌==◌, arith, Bool-cases, inl, inr, ℕ, ◌≡◌, refl, ◌∙◌, Bool, true, false, some, List, [], ◌∷◌,
  if◌then◌else◌, ltb,
}
use itcl.Classes.{ClassId}
use itcl.Lifecycle.{ClassCode, Code, ok, error, Progress, Ran, ended, fault, out_of_fuel}
use itcl.Lifecycle.Destruct.{destruct_base}
use itcl.Lifecycle.Deletion.{created}
use itcl.Lifecycle.Objects.{
  Object, Result, returned, crash, endless, destroy_object, delete_object, delete_command, destroy,
  destruct_object, finish_destruct, finish_delete, class_is_destructed, call_delete_proc,
  finish_destroy, delete_variables,
}
use itcl.Lifecycle.Quiet.{
  weaken, Quiet-then, Quiet-else, Quiet, destruct_object-Quiet, class_is_destructed-Quiet,
  finish_destroy-Quiet, destroy-Quiet, call_delete_proc-Quiet, delete_command-Quiet,
  finish_delete-Quiet, delete_object-Quiet,
}

-- What can be done to an object: Itcl_DeleteObject, the deletion of its command, and a direct call of
-- the command's deleteProc or of Itcl_DestructObject.
pub data Attempt : Type 0 where
  delete remove destroyed destructed : Attempt

unfoldable pub attempt : (ClassId → ClassCode) → ℕ → Attempt → Object → Result
unfolding delete_object delete_command destroy destruct_object
attempt code fuel delete o = delete_object code fuel o
attempt code fuel remove o = delete_command code fuel o
attempt code fuel destroyed o = destroy code fuel o
attempt code fuel destructed o = destruct_object code fuel true o

-- Attempts one after the other, whatever they return, until the object is freed.
unfoldable pub attempts : (ClassId → ClassCode) → ℕ → List Attempt → Result → Result
unfolding attempt
attempts code fuel [] x = x
attempts code fuel (a ∷ later) (returned r o) =
    let next = attempts code fuel later (attempt code fuel a o) in
    if o.claims == 0 then returned r o else next
attempts code fuel (a ∷ later) crash = crash
attempts code fuel (a ∷ later) endless = endless

module _ (code : ClassId → ClassCode) (fuel : ℕ) where
  attempt-Quiet :
      (ran : List ClassId) (a : Attempt) (o : Object)
      → Quiet ran 1 (returned ok o)
      → Quiet ran 0 (attempt code fuel a o)
  unfolding attempt
  attempt-Quiet ran delete o q = delete_object-Quiet code fuel ran o q
  attempt-Quiet ran remove o q = delete_command-Quiet code fuel ran 0 o q
  attempt-Quiet ran destroyed o q = destroy-Quiet code fuel ran 0 o q
  attempt-Quiet ran destructed o q =
      weaken ran 0 (destruct_object code fuel true o)
        (destruct_object-Quiet code fuel ran 0 true o q)

  attempts-Quiet :
      (ran : List ClassId) (later : List Attempt) (x : Result)
      → Quiet ran 0 x
      → Quiet ran 0 (attempts code fuel later x)
  unfolding attempts
  attempts-Quiet ran [] x q = q
  attempts-Quiet ran (a ∷ later) crash q = elim q [ ]
  attempts-Quiet ran (a ∷ later) endless q = elim q [ ]
  attempts-Quiet ran (a ∷ later) (returned r o) (d, h, k) = elim (Bool-cases (o.claims == 0)) [
    | inl freed ↦ Quiet-then ran 0 (o.claims == 0) _ _ freed (d, h, k)
    | inr living ↦ Quiet-else ran 0 (o.claims == 0) _ _ living (
        attempts-Quiet ran later (attempt code fuel a o)
          (attempt-Quiet ran a o (d, h, ground (arith, living))))
  ]

  -- The first attempt, where the destructors have ended.
  after_first : Attempt → ClassId → List ClassId → Ran → Result
  unfolding finish_destruct
  after_first delete c ran x = finish_delete code fuel (
      finish_destruct
        (record (created c ran) { is_deleted = true; is_destructed = true; claims = 2 }) x)
  after_first remove c ran x = call_delete_proc code fuel destroy_object (
      class_is_destructed code fuel
        (finish_destruct (record (created c ran) { is_renamed = true; is_destructed = true }) x))
  after_first destroyed c ran x =
      finish_destroy code fuel
        (finish_destruct (record (created c ran) { is_destroyed = true; is_destructed = true }) x)
  after_first destructed c ran x =
      finish_destruct (record (created c ran) { is_destructed = true }) x

  delete_variables-Quiet :
      (ran : List ClassId) (o : Object)
      → (n : ℕ) → Quiet ran n (returned ok o)
      → Quiet ran n (returned ok (delete_variables o))
  unfolding delete_variables
  delete_variables-Quiet ran o n q = split (ltb o.call_refs 1)
    where
      split :
          (b : Bool)
          → Quiet ran n (
              returned ok (
                if b
                then record o { should_delete_vars = false; has_vars = false }
                else record o { should_delete_vars = true }))
      split true = q
      split false = q

  finish_destruct-Quiet :
      (o : Object) (r : Code) (p : Progress)
      → o.is_destructed ≡ true
      → Quiet p.ran o.claims (finish_destruct o (ended r p))
  unfolding finish_destruct
  finish_destruct-Quiet o ok p d =
      delete_variables-Quiet p.ran (record o { destructed = p }) o.claims (d, refl, omega arith)
  finish_destruct-Quiet o error p d = (d, refl, omega arith)

  after_first-Quiet :
      (a : Attempt) (c : ClassId) (ran : List ClassId) (r : Code) (p : Progress)
      → Quiet p.ran 0 (after_first a c ran (ended r p))
  unfolding after_first
  after_first-Quiet delete c ran r p =
      let o : Object = record (created c ran) {
        is_deleted = true;
        is_destructed = true;
        claims = 2;
      } in
      finish_delete-Quiet code fuel p.ran (finish_destruct o (ended r p))
        (finish_destruct-Quiet o r p refl)
  after_first-Quiet remove c ran r p =
      let o : Object = record (created c ran) { is_renamed = true; is_destructed = true } in
      let x = finish_destruct o (ended r p) in
      call_delete_proc-Quiet code fuel p.ran 0 destroy_object (class_is_destructed code fuel x)
        (class_is_destructed-Quiet code fuel p.ran 1 x (finish_destruct-Quiet o r p refl))
  after_first-Quiet destroyed c ran r p =
      let o : Object = record (created c ran) { is_destroyed = true; is_destructed = true } in
      finish_destroy-Quiet code fuel p.ran 0 (finish_destruct o (ended r p))
        (finish_destruct-Quiet o r p refl)
  after_first-Quiet destructed c ran r p =
      let o : Object = record (created c ran) { is_destructed = true } in
      weaken p.ran 0 (finish_destruct o (ended r p)) (finish_destruct-Quiet o r p refl)

  crash-returned : (r : Code) (o : Object) → crash ≡ returned r o → ⊥
  crash-returned r o e = cc

  endless-returned : (r : Code) (o : Object) → endless ≡ returned r o → ⊥
  endless-returned r o e = cc

  -- A first attempt that comes back leaves an object that has been destructed.
  first-Quiet :
      (a : Attempt) (c : ClassId) (ran : List ClassId) (x : Ran) (r : Code) (o : Object)
      → after_first a c ran x ≡ returned r o
      → Quiet o.destructed.ran 0 (returned r o)
  unfolding after_first finish_delete
  first-Quiet a c ran (ended s p) r o e =
      let (d, h, k) = subst (Quiet p.ran 0) e (after_first-Quiet a c ran s p) in (d, refl, k)
  first-Quiet delete c ran fault r o e = absurd (crash-returned r o e)
  first-Quiet remove c ran fault r o e = absurd (crash-returned r o e)
  first-Quiet destroyed c ran fault r o e = absurd (crash-returned r o e)
  first-Quiet destructed c ran fault r o e = absurd (crash-returned r o e)
  first-Quiet delete c ran out_of_fuel r o e = absurd (endless-returned r o e)
  first-Quiet remove c ran out_of_fuel r o e = absurd (endless-returned r o e)
  first-Quiet destroyed c ran out_of_fuel r o e = absurd (endless-returned r o e)
  first-Quiet destructed c ran out_of_fuel r o e = absurd (endless-returned r o e)

  first_step :
      (a : Attempt) (c : ClassId) (ran : List ClassId)
      → after_first a c ran (destruct_base code fuel false c (record { table = some []; ran = [] }))
        ≡ attempt code fuel a (created c ran)
  unfolding attempt after_first
  first_step delete c ran = refl
  first_step remove c ran = refl
  first_step destroyed c ran = refl
  first_step destructed c ran = refl

  Quiet-returned :
      (ran : List ClassId) (x : Result)
      → Quiet ran 0 x
      → (r : Code) × (o : Object) × (x ≡ returned r o) × (o.destructed.ran ≡ ran)
  Quiet-returned ran (returned r o) q = (r, o, refl, q.1)
  Quiet-returned ran crash q = elim q [ ]
  Quiet-returned ran endless q = elim q [ ]

  -- Where a first attempt to delete, remove or destruct a constructed object comes back, with
  -- whatever result, the attempts that follow one after the other, as long as the object has claims
  -- and so has not been freed, come back too: none gives up a claim that is not there or uses the
  -- object after it is freed, and none runs a destructor any more.
  pub attempts-Once :
      (a : Attempt) (later : List Attempt) (c : ClassId) (ran : List ClassId) (r : Code)
      (o : Object)
      → attempt code fuel a (created c ran) ≡ returned r o
      → (r' : Code) × (o' : Object) × (attempts code fuel later (returned r o) ≡ returned r' o')
        × (o'.destructed.ran ≡ o.destructed.ran)
  attempts-Once a later c ran r o e =
      let x = destruct_base code fuel false c (record { table = some []; ran = [] }) in
      Quiet-returned o.destructed.ran (attempts code fuel later (returned r o)) (
        attempts-Quiet o.destructed.ran later (returned r o)
          (first-Quiet a c ran x r o (first_step a c ran ∙ e)))
