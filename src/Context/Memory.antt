-- ===== src/Context/Memory.antt =====
-- The contexts in memory, and the cache of an object.
use itcl.Prelude.{
  ℕ, ◌+◌, ◌≤◌, ◌≡◌, refl, ap, ◌∙◌, sym, true, false, Option, none, some, List, arith, ◌==◌,
  if◌then◌else◌, ==_iff, Bool-cases, inl, inr,
}
use itcl.Classes.{ClassId}
use itcl.Context.{ObjectId}
use itcl.Context.Invoke.{
  MemberId, MethodContext, Calling, Invocation, set_at, fresh_context, put_context, allocate,
}
use itcl.Context.Entries.{Entry, set_at_same, set_at_other}

abbrev pub Memory : Type 0
Memory = ℕ → Option MethodContext

-- The context is in memory, for the member of the object.
abbrev pub Owned : Memory → ℕ → ObjectId → MemberId → Type 0
Owned f id o m = (c : MethodContext) × (f id ≡ some c) × (c.object ≡ o) × (c.member ≡ m)

-- And the object's cache has an entry for the member.
abbrev pub Live : Calling → ℕ → ObjectId → MemberId → Type 0
Live s id o m = Owned s.contexts id o m × ((x : ℕ) × (s.cache o m ≡ some x))

abbrev pub Keeps : Calling → Calling → Type 0
Keeps s s' = (id : ℕ) (o : ObjectId) (m : MemberId) → Live s id o m → Live s' id o m

-- The table of stacks is as `view` says, a cached context is in memory and belongs where it is cached,
-- and the memory from `next` on is free.
pub record IsSound (s : Calling) (view : ℕ → List ℕ) : Type 0 where
  pub stacks : (k : ℕ) → Entry (s.frame_context k) (view k)
  pub cached :
      (o : ObjectId) (m : MemberId) (id : ℕ) → s.cache o m ≡ some id → Owned s.contexts id o m
  pub unused : (id : ℕ) → s.next ≤ id → s.contexts id ≡ none

-- The counts are the same.
pub record SameCounts (s s' : Calling) : Type 0 where
  pub call_refs : (o : ObjectId) → s'.call_refs o ≡ s.call_refs o
  pub claims : (o : ObjectId) → s'.claims o ≡ s.claims o
  pub class_refs : (c : ClassId) → s'.class_refs c ≡ s.class_refs c

pub Owned-update :
    (f : Memory) (id : ℕ) (c c' : MethodContext)
    → f id ≡ some c
    → c'.object ≡ c.object
    → c'.member ≡ c.member
    → (j : ℕ) (o : ObjectId) (m : MemberId) → Owned f j o m
    → Owned (set_at id (some c') f) j o m
Owned-update f id c c' e eo em j o m (d, ed, do_, dm) = elim (Bool-cases (j == id)) [
  | inl h ↦
      let same : d ≡ c = some-inj (sym ed ∙ ap f ((==_iff j id).0 h) ∙ e) in
      (
        c',
        ap (λ b. if b then some c' else f j) h,
        eo ∙ ap (λ x. x.object) (sym same) ∙ do_,
        em ∙ ap (λ x. x.member) (sym same) ∙ dm,
      )
  | inr h ↦ (d, set_at_other id j (some c') f h ∙ ed, do_, dm)
]
  where
    some-inj : {a b : MethodContext} → some a ≡ some b → a ≡ b
    some-inj e = cc

-- A context is changed in place.
pub update-IsSound :
    (s : Calling) (view : ℕ → List ℕ) (id : ℕ) (c c' : MethodContext)
    → IsSound s view
    → s.contexts id ≡ some c
    → c'.object ≡ c.object
    → c'.member ≡ c.member
    → IsSound (record s { contexts = set_at id (some c') s.contexts }) view
      × Keeps s (record s { contexts = set_at id (some c') s.contexts })
update-IsSound s view id c c' h e eo em = (
  record {
    stacks = h.stacks;
    cached = λ o m j k. Owned-update s.contexts id c c' e eo em j o m (h.cached o m j k);
    unused = λ j k. set_at_other id j (some c') s.contexts (not_used j k) ∙ h.unused j k;
  },
  λ j o m (l, x). (Owned-update s.contexts id c c' e eo em j o m l, x),
)
  where
    clash : (j : ℕ) → s.next ≤ j → (j == id) ≡ true → ⊥
    clash j k b = none-some (sym (h.unused j k) ∙ ap s.contexts ((==_iff j id).0 b) ∙ e)
      where
        none-some : {a : MethodContext} → none ≡ some a → ⊥
        none-some e = cc

    not_used : (j : ℕ) → s.next ≤ j → (j == id) ≡ false
    not_used j k = elim (Bool-cases (j == id)) [ inl b ↦ absurd (clash j k b) | inr b ↦ b ]

pub none-some : {a : MethodContext} → none ≡ some a → ⊥
none-some e = cc

pub Owned-allocate :
    (f : Memory) (n : ℕ) (c : MethodContext)
    → f n ≡ none
    → (j : ℕ) (o : ObjectId) (m : MemberId) → Owned f j o m
    → Owned (set_at n (some c) f) j o m
Owned-allocate f n c e j o m (d, ed, do_, dm) = elim (Bool-cases (j == n)) [
  | inl h ↦ absurd (none-some (sym e ∙ ap f (sym ((==_iff j n).0 h)) ∙ ed))
  | inr h ↦ (d, set_at_other n j (some c) f h ∙ ed, do_, dm)
]

abbrev pub with_cache : (ObjectId → MemberId → Option ℕ) → Calling → Calling
with_cache t s = record s { cache = t }

-- New memory, where the entries of the new cache are old ones or lead to it.
pub allocate-IsSound :
    (v : Invocation) (s : Calling) (view : ℕ → List ℕ) (t : ObjectId → MemberId → Option ℕ)
    → IsSound s view
    → ((o : ObjectId) (m : MemberId) (id : ℕ)
        → t o m ≡ some id
        → Owned (set_at s.next (some (fresh_context v s)) s.contexts) id o m)
    → ((o : ObjectId) (m : MemberId) (x : ℕ) → s.cache o m ≡ some x → (y : ℕ) × (t o m ≡ some y))
    → ((y : ℕ) × (t v.object v.member ≡ some y))
    → IsSound (allocate v (with_cache t s)).state view
      × Keeps s (allocate v (with_cache t s)).state
      × Live (allocate v (with_cache t s)).state (allocate v (with_cache t s)).id v.object v.member
unfolding allocate put_context
allocate-IsSound v s view t h entries kept own =
    let c = fresh_context v s in
    (
      record {
        stacks = h.stacks;
        cached = entries;
        unused = λ j k.
            set_at_other s.next j (some c) s.contexts (above s.next j k)
            ∙ h.unused j (omega (arith, k));
      },
      λ j o m (l, (x, e)). (
        Owned-allocate s.contexts s.next c (h.unused s.next (omega arith)) j o m l,
        kept o m x e,
      ),
      ((c, set_at_same s.next (some c) s.contexts, refl, refl), own),
    )
  where
    above : (n j : ℕ) → n + 1 ≤ j → (j == n) ≡ false
    above n j k = ground (arith, k)
