-- ===== src/Context/Balance.antt =====
-- What ItclCheckCallMethod leaves for the body of a method.
use mathlib.Core.Path.{subst}
use itcl.Prelude.{
  ℕ, ◌+◌, ◌≡◌, ap, ◌∙◌, sym, Bool, true, false, Option, some, List, ◌∷◌, ◌==◌, if◌then◌else◌, ◌>>=◌,
  ==_iff, Bool-cases, inl, inr,
}
use itcl.Stack.{Stack}
use itcl.Classes.{ClassId}
use itcl.Context.{ObjectId}
use itcl.Context.Invoke.{Calling, Invocation, set_at, push_at, enter_call, check_call_method}
use itcl.Context.Entries.{Entry, push_entry-Entry}
use itcl.Context.Choice.{choose-IsChosen}
use itcl.Context.Memory.{Live, Keeps, IsSound}

abbrev pub EntryTable : Type 0
EntryTable = ℕ → Option (Stack ℕ)

abbrev pub View : Type 0
View = ℕ → List ℕ

abbrev pub push_view : ℕ → ℕ → View → View
push_view k x view = set_at k (x ∷ view k) view

entries-push :
    (f : EntryTable) (view : View) (k : ℕ) (o : Option (Stack ℕ)) (xs : List ℕ)
    → ((j : ℕ) → Entry (f j) (view j))
    → Entry o xs
    → (j : ℕ) → Entry (set_at k o f j) (set_at k xs view j)
entries-push f view k o xs all e j = split (j == k)
  where
    split : (b : Bool) → Entry (if b then o else f j) (if b then xs else view j)
    split true = e
    split false = all j

pub entries-pop :
    (f : EntryTable) (view : View) (k x : ℕ) (o : Option (Stack ℕ))
    → ((j : ℕ) → Entry (f j) (push_view k x view j))
    → Entry o (view k)
    → (j : ℕ) → Entry (set_at k o f j) (view j)
entries-pop f view k x o all e j = elim (Bool-cases (j == k)) [
  | inl h ↦
      subst (λ b. Entry (if b then o else f j) (view j)) (sym h)
        (subst (λ i. Entry o (view i)) (sym ((==_iff j k).0 h)) e)
  | inr h ↦
      subst (λ b. Entry (if b then o else f j) (view j)) (sym h)
        (subst (λ b. Entry (f j) (if b then x ∷ view k else view j)) h (all j))
]

pub push_at-IsSound :
    (k x : ℕ) (s : Calling) (view : View)
    → IsSound s view
    → (f : EntryTable) × (push_at k x s ≡ some (record s { frame_context = f }))
      × IsSound (record s { frame_context = f }) (push_view k x view)
unfolding push_at
push_at-IsSound k x s view h =
    let (t, e, entry) = push_entry-Entry x (h.stacks k) in
    let f = set_at k (some t) s.frame_context in
    (
      f,
      ap (λ o. o >>= (λ u. some (record s { frame_context = set_at k (some u) s.frame_context })))
          e,
      record {
        stacks = entries-push s.frame_context view k (some t) (x ∷ view k) h.stacks entry;
        cached = h.cached;
        unused = h.unused;
      },
    )

-- The state in the body of a method: the context is on top of the stack of the frame, and the frame on
-- top of the stack of the TclOO context.
pub record Inside (v : Invocation) (s : Calling) (view : View) (s' : Calling) : Type 0 where
  pub id : ℕ
  pub sound : IsSound s' (push_view v.context v.frame (push_view v.frame id view))
  pub keeps : Keeps s s'
  pub live : Live s' id v.object v.member
  pub call_refs :
      (o : ObjectId) → s'.call_refs o ≡ set_at v.object (s.call_refs v.object + 1) s.call_refs o
  pub claims : (o : ObjectId) → s'.claims o ≡ set_at v.object (s.claims v.object + 1) s.claims o
  pub class_refs :
      (c : ClassId) → s'.class_refs c ≡ set_at v.icls (s.class_refs v.icls + 1) s.class_refs c

pub set_at_congr :
    {A : Type 0} (k : ℕ) (a a' : A) (f f' : ℕ → A)
    → a ≡ a'
    → ((j : ℕ) → f j ≡ f' j)
    → (j : ℕ) → set_at k a f j ≡ set_at k a' f' j
set_at_congr k a a' f f' e h j = split (j == k)
  where
    split : (b : Bool) → (if b then a else f j) ≡ (if b then a' else f' j)
    split true = e
    split false = h j

pub check_call_method-Inside :
    (v : Invocation) (s : Calling) (view : View)
    → IsSound s view
    → (s' : Calling) × (check_call_method v s ≡ some s') × Inside v s view s'
unfolding check_call_method
check_call_method-Inside v s view h =
    let (k, e, c) = choose-IsChosen v s view h in
    let (f, e1, h1) = push_at-IsSound v.frame k.id k.state view c.sound in
    let s1 : Calling = record k.state { frame_context = f } in
    let (g, e2, h2) = push_at-IsSound v.context v.frame s1 (push_view v.frame k.id view) h1 in
    let s2 : Calling = record s1 { frame_context = g } in
    (
      enter_call v s2,
      ap
            (λ o. o >>= (λ x.
              push_at v.frame x.id x.state
              >>= (λ y. push_at v.context v.frame y >>= (λ z. some (enter_call v z)))))
            e
          ∙ ap (λ o. o >>= (λ y. push_at v.context v.frame y >>= (λ z. some (enter_call v z)))) e1
          ∙ ap (λ o. o >>= (λ z. some (enter_call v z))) e2,
      record {
        id = k.id;
        sound = record { stacks = h2.stacks; cached = h2.cached; unused = h2.unused };
        keeps = c.keeps;
        live = c.live;
        call_refs =
            set_at_congr v.object _ _ _ _ (ap (λ n. n + 1) (c.counts.call_refs v.object))
              c.counts.call_refs;
        claims =
            set_at_congr v.object _ _ _ _ (ap (λ n. n + 1) (c.counts.claims v.object))
              c.counts.claims;
        class_refs =
            set_at_congr v.icls _ _ _ _ (ap (λ n. n + 1) (c.counts.class_refs v.icls))
              c.counts.class_refs;
      },
    )
