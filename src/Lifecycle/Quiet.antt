-- ===== src/Lifecycle/Quiet.antt =====
-- An object that has been destructed runs no destructor any more, whatever is done to it, and its
-- claims are never given up too often.
use itcl.Prelude.{
  ℕ, suc, ◌+◌, ◌≤◌, ◌≡◌, ◌==◌, arith, Bool, true, false, Option, none, some, List, if◌then◌else◌,
}
use itcl.Classes.{ClassId}
use itcl.Lifecycle.{ClassCode, Code, ok, error}
use itcl.Lifecycle.Objects.{
  Object, Result, returned, crash, endless, DeleteProc, destroy_object, release_data, delete_object,
  delete_command, destroy, destruct_object, finish_delete, object_renamed_trace,
  class_is_destructed, call_delete_proc, delete_with, delete_access, drop_object, finish_destroy,
  alive, release, set_failed, forget_command,
}

-- An object that has been destructed, where the destructors `ran` have run, comes back with at least
-- `n` claims.
abbrev pub Quiet : List ClassId → ℕ → Result → Type 0
Quiet ran n (returned r o) = (o.is_destructed ≡ true) × (o.destructed.ran ≡ ran) × (n ≤ o.claims)
Quiet ran n crash = ⊥
Quiet ran n endless = ⊥

module _ (ran : List ClassId) (n : ℕ) where
  pub Quiet-if :
      (b : Bool) (x y : Result) → Quiet ran n x → Quiet ran n y → Quiet ran n (if b then x else y)
  Quiet-if true x y p q = p
  Quiet-if false x y p q = q

  pub Quiet-then :
      (b : Bool) (x y : Result) → b ≡ true → Quiet ran n x → Quiet ran n (if b then x else y)
  Quiet-then true x y e p = p
  Quiet-then false x y e p = cc

  pub Quiet-else :
      (b : Bool) (x y : Result) → b ≡ false → Quiet ran n y → Quiet ran n (if b then x else y)
  Quiet-else true x y e p = cc
  Quiet-else false x y e p = p

  pub Quiet-alive :
      (o : Object) (x : Result) → 1 ≤ o.claims → Quiet ran n x → Quiet ran n (alive o x)
  Quiet-alive o x h q = Quiet-else (o.claims == 0) crash x (ground (arith, h)) q

  release-Quiet :
      (r : Code) (o : Object) → Quiet ran (suc n) (returned ok o) → Quiet ran n (release r o)
  unfolding release
  release-Quiet r o (d, h, k) = Quiet-alive o _ (omega (arith, k)) (d, h, omega (arith, k))

  pub weaken : (x : Result) → Quiet ran (suc n) x → Quiet ran n x
  weaken (returned r o) (d, h, k) = (d, h, omega (arith, k))
  weaken crash q = elim q [ ]
  weaken endless q = elim q [ ]

module _ (code : ClassId → ClassCode) (fuel : ℕ) (ran : List ClassId) (n : ℕ) where
  pub destruct_object-Quiet :
      (ignore : Bool) (o : Object)
      → Quiet ran (suc n) (returned ok o)
      → Quiet ran (suc n) (destruct_object code fuel ignore o)
  unfolding destruct_object
  destruct_object-Quiet ignore o (d, h, k) =
      Quiet-alive ran (suc n) o _ (omega (arith, k))
        (Quiet-then ran (suc n) o.is_destructed _ _ d (d, h, k))

  pub class_is_destructed-Quiet :
      (x : Result) → Quiet ran n x → Quiet ran n (class_is_destructed code fuel x)
  unfolding class_is_destructed
  class_is_destructed-Quiet (returned r o) q = q
  class_is_destructed-Quiet crash q = elim q [ ]
  class_is_destructed-Quiet endless q = elim q [ ]

  pub finish_destroy-Quiet :
      (x : Result) → Quiet ran (suc n) x → Quiet ran n (finish_destroy code fuel x)
  unfolding finish_destroy
  finish_destroy-Quiet (returned r o) q = release-Quiet ran n ok (forget_command code fuel o) q
  finish_destroy-Quiet crash q = elim q [ ]
  finish_destroy-Quiet endless q = elim q [ ]

  pub drop_object-Quiet : (x : Result) → Quiet ran (suc n) x → Quiet ran n (drop_object code fuel x)
  unfolding drop_object
  drop_object-Quiet (returned r o) q =
      release-Quiet ran n ok (record o { has_oo = false; access_cmd = none }) q
  drop_object-Quiet crash q = elim q [ ]
  drop_object-Quiet endless q = elim q [ ]

  set_failed-Quiet : (x : Result) → Quiet ran (suc n) x → Quiet ran (suc n) (set_failed code fuel x)
  unfolding set_failed
  set_failed-Quiet (returned r o) (d, h, k) =
      Quiet-alive ran (suc n) o _ (omega (arith, k)) (d, h, k)
  set_failed-Quiet crash q = elim q [ ]
  set_failed-Quiet endless q = elim q [ ]

module _ (code : ClassId → ClassCode) (fuel : ℕ) (ran : List ClassId) (n : ℕ) where
  pub object_renamed_trace-Quiet :
      (o : Object)
      → Quiet ran (suc n) (returned ok o)
      → Quiet ran (suc n) (object_renamed_trace code fuel o)
  unfolding object_renamed_trace
  object_renamed_trace-Quiet o (d, h, k) =
      let o' : Object = record o {
        is_renamed = true;
        has_oo = if o.oo_deleted then false else o.has_oo;
      } in
      Quiet-alive ran (suc n) o _ (omega (arith, k)) (
        Quiet-if ran (suc n) o.class_destructed _ _ (d, h, k)
          (class_is_destructed-Quiet code fuel ran (suc n) (destruct_object code fuel true o')
            (destruct_object-Quiet code fuel ran n true o' (d, h, k))))

  pub destroy-Quiet :
      (o : Object) → Quiet ran (suc n) (returned ok o) → Quiet ran n (destroy code fuel o)
  unfolding destroy
  destroy-Quiet o (d, h, k) =
      let o' : Object = record o { is_destroyed = true } in
      let inner : Result =
        if o.is_destructed then returned ok o' else destruct_object code fuel true o' in
      Quiet-alive ran n o _ (omega (arith, k)) (
        Quiet-if ran n o.is_destroyed _ _ (d, h, omega (arith, k))
          (finish_destroy-Quiet code fuel ran n inner (
            Quiet-if ran (suc n) o.is_destructed _ _ (d, h, k)
              (destruct_object-Quiet code fuel ran n true o' (d, h, k)))))

  pub call_delete_proc-Quiet :
      (proc : DeleteProc) (x : Result)
      → Quiet ran (suc n) x
      → Quiet ran n (call_delete_proc code fuel proc x)
  unfolding call_delete_proc
  call_delete_proc-Quiet destroy_object (returned r o) q = destroy-Quiet o q
  call_delete_proc-Quiet release_data (returned r o) q = release-Quiet ran n ok o q
  call_delete_proc-Quiet destroy_object crash q = elim q [ ]
  call_delete_proc-Quiet destroy_object endless q = elim q [ ]
  call_delete_proc-Quiet release_data crash q = elim q [ ]
  call_delete_proc-Quiet release_data endless q = elim q [ ]

  delete_with-Quiet :
      (proc : Option DeleteProc) (o : Object)
      → Quiet ran (suc n) (returned ok o)
      → Quiet ran n (delete_with code fuel proc o)
  unfolding delete_with
  delete_with-Quiet none o (d, h, k) = (d, h, omega (arith, k))
  delete_with-Quiet (some proc) o q =
      call_delete_proc-Quiet proc (object_renamed_trace code fuel o)
        (object_renamed_trace-Quiet o q)

  pub delete_command-Quiet :
      (o : Object) → Quiet ran (suc n) (returned ok o) → Quiet ran n (delete_command code fuel o)
  unfolding delete_command
  delete_command-Quiet o q = delete_with-Quiet o.access_cmd o q

  delete_access-Quiet :
      (o : Object) (proc : Option DeleteProc)
      → Quiet ran (suc n) (returned ok o)
      → Quiet ran n (delete_access code fuel o proc)
  unfolding delete_access
  delete_access-Quiet o none (d, h, k) = (d, h, omega (arith, k))
  delete_access-Quiet o (some proc) (d, h, k) =
      Quiet-if ran n o.is_renamed _ _ (d, h, omega (arith, k))
        (delete_command-Quiet (record o { access_cmd = some release_data }) (d, h, k))

module _ (code : ClassId → ClassCode) (fuel : ℕ) (ran : List ClassId) where
  pub finish_delete-Quiet : (x : Result) → Quiet ran 2 x → Quiet ran 0 (finish_delete code fuel x)
  unfolding finish_delete
  finish_delete-Quiet (returned ok o) q =
      let o' : Object = record o { known = false } in
      drop_object-Quiet code fuel ran 0 (delete_access code fuel o' o.access_cmd)
        (delete_access-Quiet code fuel ran 1 o' o.access_cmd q)
  finish_delete-Quiet (returned error o) q =
      weaken ran 0 (set_failed code fuel (release error o))
        (set_failed-Quiet code fuel ran 0 (release error o) (release-Quiet ran 1 error o q))
  finish_delete-Quiet crash q = elim q [ ]
  finish_delete-Quiet endless q = elim q [ ]

  pub delete_object-Quiet :
      (o : Object) → Quiet ran 1 (returned ok o) → Quiet ran 0 (delete_object code fuel o)
  unfolding delete_object
  delete_object-Quiet o (d, h, k) =
      let o' : Object = record o { is_deleted = true; claims = o.claims + 1 } in
      Quiet-alive ran 0 o _ k (
        finish_delete-Quiet (destruct_object code fuel false o')
          (destruct_object-Quiet code fuel ran 1 false o' (d, h, omega (arith, k))))
