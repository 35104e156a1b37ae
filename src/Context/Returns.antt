-- ===== src/Context/Returns.antt =====
-- The return from a method, and whole trees of calls.
use itcl.Prelude.{
  ℕ, ◌+◌, ◌-◌, ◌≡◌, refl, ap, ◌∙◌, sym, Bool, true, false, Option, some, ◌∷◌, arith, ◌==◌, leb,
  if◌then◌else◌, ◌>>=◌, ==_iff, Bool-cases, inl, inr,
}
use itcl.Classes.{ClassId}
use itcl.Context.{ObjectId}
use itcl.Context.Invoke.{
  MethodContext, Calling, Invocation, set_at, Popped, pop_entry, left_context, leave_with,
  leave_context, after_call_method, CallTree, done, call, run_calls,
}
use itcl.Context.Entries.{Entry, pop_entry-Entry, set_at_same}
use itcl.Context.Memory.{Live, Keeps, IsSound, SameCounts, update-IsSound}
use itcl.Context.Balance.{View, push_view, entries-pop, check_call_method-Inside}
use mathlib.Core.Path.{subst}

-- The state behind a method that had the context `id`.
record Outside (v : Invocation) (s : Calling) (view : View) (s' : Calling) : Type 0 where
  sound : IsSound s' view
  keeps : Keeps s s'
  call_refs :
      (o : ObjectId) → s'.call_refs o ≡ set_at v.object (s.call_refs v.object - 1) s.call_refs o
  claims : (o : ObjectId) → s'.claims o ≡ set_at v.object (s.claims v.object - 1) s.claims o
  class_refs :
      (c : ClassId) → s'.class_refs c ≡ set_at v.icls (s.class_refs v.icls - 1) s.class_refs c

left_context-some :
    (b : Bool) (x : ℕ) (c : MethodContext)
    → left_context b (some x) c ≡ some (record c { ref_count = c.ref_count - 1 })
left_context-some true x c = refl
left_context-some false x c = refl

after_call_method-Outside :
    (v : Invocation) (s : Calling) (view : View) (id : ℕ)
    → IsSound s (push_view v.context v.frame (push_view v.frame id view))
    → Live s id v.object v.member
    → (s' : Calling) × (after_call_method v s ≡ some s') × Outside v s view s'
unfolding after_call_method leave_context
after_call_method-Outside v s view id h ((c, ec, eo, em), (x, ex)) =
    let view1 = push_view v.frame id view in
    let (f, pf, hf) = pop_entry-Entry v.frame (view1 v.context) (s.frame_context v.context) (
      subst (λ xs. Entry (s.frame_context v.context) xs)
        (set_at_same v.context (v.frame ∷ view1 v.context) view1) (h.stacks v.context)) in
    let table1 = set_at v.context f s.frame_context in
    let stacks1 = entries-pop s.frame_context view1 v.context v.frame f h.stacks hf in
    let (g, pg, hg) = pop_entry-Entry id (view v.frame) (table1 v.frame) (
      subst (λ xs. Entry (table1 v.frame) xs) (set_at_same v.frame (id ∷ view v.frame) view)
        (stacks1 v.frame)) in
    let table2 = set_at v.frame g table1 in
    let s2 : Calling = record s { frame_context = table2 } in
    let sound2 : IsSound s2 view = record {
      stacks = entries-pop table1 view v.frame id g stacks1 hg;
      cached = h.cached;
      unused = h.unused;
    } in
    let c' : MethodContext = record c { ref_count = c.ref_count - 1 } in
    let (sound3, keeps3) = update-IsSound s2 view id c c' sound2 ec refl refl in
    (
      leave_with v id v.object (some c') s2,
      ap (λ o. o >>= (λ a. continue a)) pf
          ∙ ap
              (λ o. o >>= (λ b.
                leave_context v b.value (record s { frame_context = set_at v.frame b.entry table1 })
                  (s.contexts b.value)))
              pg
          ∙ ap (leave_context v id s2) ec
          ∙ ap
              (λ o.
                some
                  (leave_with v id o (left_context (leb c.ref_count 1) (s.cache o c.member) c) s2))
              eo
          ∙ ap
              (λ m. some (
                leave_with v id v.object (left_context (leb c.ref_count 1) (s.cache v.object m) c)
                  s2))
              em
          ∙ ap (λ y. some (leave_with v id v.object (left_context (leb c.ref_count 1) y c) s2)) ex
          ∙ ap (λ y. some (leave_with v id v.object y s2))
              (left_context-some (leb c.ref_count 1) x c),
      record {
        sound = record { stacks = sound3.stacks; cached = sound3.cached; unused = sound3.unused };
        keeps = keeps3;
        call_refs = λ o. refl;
        claims = λ o. refl;
        class_refs = λ k. refl;
      },
    )
  where
    continue : Popped → Option Calling
    continue a = pop_entry (set_at v.context a.entry s.frame_context a.value) >>= (λ b.
        leave_context v b.value
          (record s {
            frame_context = set_at a.value b.entry (set_at v.context a.entry s.frame_context);
          })
          (s.contexts b.value))

-- One more, and one less again.
up_down :
    (k : ℕ) (f f1 f2 f3 : ℕ → ℕ)
    → ((j : ℕ) → f1 j ≡ set_at k (f k + 1) f j)
    → ((j : ℕ) → f2 j ≡ f1 j)
    → ((j : ℕ) → f3 j ≡ set_at k (f2 k - 1) f2 j)
    → (j : ℕ) → f3 j ≡ f j
up_down k f f1 f2 f3 a b c j = elim (Bool-cases (j == k)) [
  | inl h ↦
      let at_k : f2 k ≡ f k + 1 = b k ∙ a k ∙ set_at_same k (f k + 1) f in
      c j
      ∙ ap (λ x. if x then f2 k - 1 else f2 j) h
      ∙ minus_one (f2 k) (f k) at_k
      ∙ ap f (sym ((==_iff j k).0 h))
  | inr h ↦
      c j
      ∙ ap (λ x. if x then f2 k - 1 else f2 j) h
      ∙ b j
      ∙ a j
      ∙ ap (λ x. if x then f k + 1 else f j) h
]
  where
    minus_one : (m n : ℕ) → m ≡ n + 1 → m - 1 ≡ n
    minus_one m n e = omega (arith, e)

-- What any calls leave behind.
pub record Balanced (s : Calling) (view : View) (s' : Calling) : Type 0 where
  pub sound : IsSound s' view
  pub keeps : Keeps s s'
  pub counts : SameCounts s s'

-- In a sound state, calls of methods, one after the other and inside one another, on any objects, frames
-- and namespaces, all find their contexts: no assertion of ItclAfterCallMethod fails. Afterwards the
-- state is sound, the stacks of frameContext hold what they held, and the counts of calls and claims of
-- objects and classes are what they were.
pub run_calls-Balanced :
    (calls : CallTree) (s : Calling) (view : View)
    → IsSound s view
    → (s' : Calling) × (run_calls calls s ≡ some s') × Balanced s view s'
unfolding run_calls
run_calls-Balanced done s view h = (
  s,
  refl,
  record {
    sound = h;
    keeps = λ id o m l. l;
    counts = record { call_refs = λ o. refl; claims = λ o. refl; class_refs = λ c. refl };
  },
)
run_calls-Balanced (call v body rest) s view h =
    let (s1, e1, inside) = check_call_method-Inside v s view h in
    let (s2, e2, inner) =
      run_calls-Balanced body s1 (push_view v.context v.frame (push_view v.frame inside.id view))
        inside.sound in
    let (s3, e3, back) =
      after_call_method-Outside v s2 view inside.id inner.sound
        (inner.keeps inside.id v.object v.member inside.live) in
    let (s4, e4, later) = run_calls-Balanced rest s3 view back.sound in
    (
      s4,
      ap
            (λ o. o >>= (λ a.
              run_calls body a >>= (λ b. after_call_method v b >>= (λ c. run_calls rest c))))
            e1
          ∙ ap (λ o. o >>= (λ b. after_call_method v b >>= (λ c. run_calls rest c))) e2
          ∙ ap (λ o. o >>= (λ c. run_calls rest c)) e3
          ∙ e4,
      record {
        sound = later.sound;
        keeps = λ id o m l.
            later.keeps id o m (back.keeps id o m (inner.keeps id o m (inside.keeps id o m l)));
        counts = record {
          call_refs = λ o.
              later.counts.call_refs o
              ∙ up_down v.object s.call_refs s1.call_refs s2.call_refs s3.call_refs inside.call_refs
                  inner.counts.call_refs back.call_refs o;
          claims = λ o.
              later.counts.claims o
              ∙ up_down v.object s.claims s1.claims s2.claims s3.claims inside.claims
                  inner.counts.claims back.claims o;
          class_refs = λ c.
              later.counts.class_refs c
              ∙ up_down v.icls s.class_refs s1.class_refs s2.class_refs s3.class_refs
                  inside.class_refs inner.counts.class_refs back.class_refs c;
        };
      },
    )
