-- ===== src/Context/Choice.antt =====
-- The choice of a context for a call: a cached one or a new one.
use itcl.Prelude.{
  ℕ, ◌+◌, ◌≡◌, refl, ap, ◌∙◌, sym, Bool, true, false, ◌&&◌, Option, some, List, arith, ◌==◌,
  if◌then◌else◌, ==_iff, Bool-cases, Option-cases, inl, inr,
}
use itcl.Context.{ObjectId}
use itcl.Context.Invoke.{
  MemberId, MethodContext, Calling, Invocation, set_at, Chosen, fresh_context, put_context,
  allocate, reuse, found_cached, choose,
}
use itcl.Context.Entries.{set_at_same}
use itcl.Context.Memory.{
  Owned, Live, Keeps, IsSound, SameCounts, update-IsSound, Owned-allocate, with_cache,
  allocate-IsSound,
}

-- What a choice of a context gives.
pub record IsChosen (v : Invocation) (s : Calling) (view : ℕ → List ℕ) (k : Chosen) : Type 0 where
  pub sound : IsSound k.state view
  pub keeps : Keeps s k.state
  pub live : Live k.state k.id v.object v.member
  pub counts : SameCounts s k.state

pub same_counts :
    (s s' : Calling)
    → s'.call_refs ≡ s.call_refs
    → s'.claims ≡ s.claims
    → s'.class_refs ≡ s.class_refs
    → SameCounts s s'
same_counts s s' a b c = record {
  call_refs = λ o. ap (λ f. f o) a;
  claims = λ o. ap (λ f. f o) b;
  class_refs = λ k. ap (λ f. f k) c;
}

-- A cached context, used again or left alone.
pub reuse-IsChosen :
    (v : Invocation) (s : Calling) (view : ℕ → List ℕ) (id : ℕ) (c : MethodContext)
    → IsSound s view
    → s.cache v.object v.member ≡ some id
    → s.contexts id ≡ some c
    → c.object ≡ v.object
    → c.member ≡ v.member
    → IsChosen v s view (reuse v s id c)
unfolding reuse put_context allocate
reuse-IsChosen v s view id c h cache e eo em =
    choice (c.ref_count == 0) (c.object_flags == s.flags v.object && c.ns == v.ns)
  where
    updated :
        (c' : MethodContext)
        → c'.object ≡ v.object
        → c'.member ≡ v.member
        → IsChosen v s view (put_context id c' s)
    updated c' a b =
        let (sound, keeps) = update-IsSound s view id c c' h e (a ∙ sym eo) (b ∙ sym em) in
        record {
          sound = sound;
          keeps = keeps;
          live = ((c', set_at_same id (some c') s.contexts, a, b), (id, cache));
          counts = same_counts s _ refl refl refl;
        }

    allocated : IsChosen v s view (allocate v s)
    allocated =
        let (sound, keeps, live) =
          allocate-IsSound v s view s.cache h
            (λ o m j k.
              Owned-allocate s.contexts s.next (fresh_context v s) (h.unused s.next (omega arith)) j
                o m (h.cached o m j k))
            (λ o m x k. (x, k)) (id, cache) in
        record {
          sound = sound;
          keeps = keeps;
          live = live;
          counts = same_counts s _ refl refl refl;
        }

    choice :
        (free like : Bool)
        → IsChosen v s view (
            if free
            then put_context id (fresh_context v s) s
            else if like
            then put_context id (record c { ref_count = c.ref_count + 1 }) s
            else allocate v s)
    choice true like = updated (fresh_context v s) refl refl
    choice false true = updated (record c { ref_count = c.ref_count + 1 }) eo em
    choice false false = allocated

abbrev pub add_cached : Invocation → Calling → ObjectId → MemberId → Option ℕ
add_cached v s = set_at v.object (set_at v.member (some s.next) (s.cache v.object)) s.cache

-- The new entry of the cache leads to the new context, and the others are old.
pub add_cached-entry :
    (v : Invocation) (s : Calling) (view : ℕ → List ℕ) (o : ObjectId) (m : MemberId) (id : ℕ)
    → IsSound s view
    → add_cached v s o m ≡ some id
    → Owned (set_at s.next (some (fresh_context v s)) s.contexts) id o m
add_cached-entry v s view o m id h e = elim (Bool-cases (o == v.object)) [
  | inl a ↦
      let at_o =
        ap (λ b. (if b then set_at v.member (some s.next) (s.cache v.object) else s.cache o) m) a in
      elim (Bool-cases (m == v.member)) [
        | inl b ↦
            let same : s.next ≡ id =
              some-inj
                (sym (ap (λ x. if x then some s.next else s.cache v.object m) b) ∙ sym at_o ∙ e) in
            (
              fresh_context v s,
              ap (set_at s.next (some (fresh_context v s)) s.contexts) (sym same)
                  ∙ set_at_same s.next (some (fresh_context v s)) s.contexts,
              sym ((==_iff o v.object).0 a),
              sym ((==_iff m v.member).0 b),
            )
        | inr b ↦ old (
            ap (λ x. s.cache x m) ((==_iff o v.object).0 a)
            ∙ sym (ap (λ x. if x then some s.next else s.cache v.object m) b)
            ∙ sym at_o
            ∙ e)
      ]
  | inr a ↦ old (
      sym
        (ap (λ b. (if b then set_at v.member (some s.next) (s.cache v.object) else s.cache o) m) a)
      ∙ e)
]
  where
    some-inj : {a b : ℕ} → some a ≡ some b → a ≡ b
    some-inj e = cc

    old : s.cache o m ≡ some id → Owned (set_at s.next (some (fresh_context v s)) s.contexts) id o m
    old k =
        Owned-allocate s.contexts s.next (fresh_context v s) (h.unused s.next (omega arith)) id o m
          (h.cached o m id k)

pub add_cached-keeps :
    (v : Invocation) (s : Calling) (o : ObjectId) (m : MemberId) (x : ℕ)
    → s.cache o m ≡ some x
    → (y : ℕ) × (add_cached v s o m ≡ some y)
add_cached-keeps v s o m x e = elim (Bool-cases (o == v.object)) [
  | inl a ↦
      let at_o =
        ap (λ b. (if b then set_at v.member (some s.next) (s.cache v.object) else s.cache o) m) a in
      elim (Bool-cases (m == v.member)) [
        | inl b ↦ (s.next, at_o ∙ ap (λ z. if z then some s.next else s.cache v.object m) b)
        | inr b ↦ (
          x,
          at_o
              ∙ ap (λ z. if z then some s.next else s.cache v.object m) b
              ∙ ap (λ z. s.cache z m) (sym ((==_iff o v.object).0 a))
              ∙ e,
        )
      ]
  | inr a ↦ (
    x,
    ap (λ b. (if b then set_at v.member (some s.next) (s.cache v.object) else s.cache o) m) a ∙ e,
  )
]

pub add_cached-own : (v : Invocation) (s : Calling) → add_cached v s v.object v.member ≡ some s.next
add_cached-own v s =
    ap (λ f. f v.member)
      (set_at_same v.object (set_at v.member (some s.next) (s.cache v.object)) s.cache)
    ∙ set_at_same v.member (some s.next) (s.cache v.object)

pub choose-IsChosen :
    (v : Invocation) (s : Calling) (view : ℕ → List ℕ)
    → IsSound s view
    → (k : Chosen) × (choose v s (s.cache v.object v.member) ≡ some k) × IsChosen v s view k
unfolding choose found_cached allocate put_context
choose-IsChosen v s view h = elim (Option-cases (s.cache v.object v.member)) [
  | inl e ↦
      let t = add_cached v s in
      let (sound, keeps, live) =
        allocate-IsSound v s view t h (λ o m id k. add_cached-entry v s view o m id h k)
          (λ o m x k. add_cached-keeps v s o m x k) (s.next, add_cached-own v s) in
      (
        allocate v (with_cache t s),
        ap (choose v s) e,
        record {
          sound = sound;
          keeps = keeps;
          live = live;
          counts = same_counts s _ refl refl refl;
        },
      )
  | inr (id, e) ↦
      let (c, ec, eo, em) = h.cached v.object v.member id e in
      (
        reuse v s id c,
        ap (choose v s) e ∙ ap (found_cached v s id) ec,
        reuse-IsChosen v s view id c h e ec eo em,
      )
]
