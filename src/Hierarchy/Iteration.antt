-- ===== src/Hierarchy/Iteration.antt =====
-- The iterator meets the order: a loop over it sees the classes that `Preorder` lists, then NULL.
use mathlib.Core.List.{reverse, reverse_aux, reverse_aux-eq, reverse-reverse}
use itcl.Prelude.{
  ℕ, zero, suc, ◌<◌, ◌≡◌, refl, ap, ◌∙◌, ◌⊎◌, inl, inr, none, some, List, [], ◌∷◌, ◌++◌, arith,
  Option-cases, length,
}
use itcl.Stack.{Stack, init_stack}
use itcl.Stack.Contents.{Holds, Holds-init, push_stack-Holds, pop_stack-Holds, pop_stack-empty}
use itcl.Classes.{ClassId}
use itcl.Hierarchy.Loop.{
  HierIter, push_all, init_hier_iter, advance_hier_iter, done, Round, go, halt, walk, start_walk,
  walk_class, walk_ancestors,
}
use itcl.Hierarchy.Order.{Preorder}
use itcl.Hierarchy.Order

-- Popping and pushing bases leads from a stack through the classes listed to another stack.
pub data Visits (bases : ClassId → List ClassId)
    : List ClassId → List ClassId → List ClassId → Type 0 where
  stop : {st : List ClassId} → Visits bases st [] st
  visit :
      {c : ClassId} {st out rest : List ClassId}
      → Visits bases (bases c ++ st) out rest
      → Visits bases (c ∷ st) (c ∷ out) rest

push_all-Holds :
    (cs : List ClassId) (s : Stack ClassId) (xs : List ClassId)
    → Holds s xs
    → (t : Stack ClassId) × (push_all cs s ≡ some t) × Holds t (reverse_aux cs xs)
unfolding push_all
push_all-Holds [] s xs h = (s, refl, h)
push_all-Holds (c ∷ cs) s xs h =
    let (t, e, ht) = push_stack-Holds c s xs h in
    let (u, e', hu) = push_all-Holds cs t (c ∷ xs) ht in (u, rw e e', hu)

reverse_aux-reverse : (xs ys : List ClassId) → reverse_aux (reverse xs) ys ≡ xs ++ ys
reverse_aux-reverse xs ys =
    reverse_aux-eq (reverse xs) ys ∙ ap (λ zs. zs ++ ys) (reverse-reverse xs)

module _ (bases : ClassId → List ClassId) where
  pub advance-empty :
      (it : HierIter)
      → Holds it.stack []
      → (it' : HierIter) × (advance_hier_iter bases it ≡ some (none, it'))
  unfolding advance_hier_iter
  advance-empty it h =
      (record { current = none; stack = it.stack }, rw ((pop_stack-empty it.stack h).1))

  -- Advancing pops a class and puts its bases on the stack, the first of them on top.
  pub advance-cons :
      (it : HierIter) (c : ClassId) (st : List ClassId)
      → Holds it.stack (c ∷ st)
      → (it' : HierIter) × (advance_hier_iter bases it ≡ some (some c, it'))
        × Holds it'.stack (bases c ++ st)
  unfolding advance_hier_iter
  advance-cons it c st h =
      let (_, (s, popped, hs)) = pop_stack-Holds it.stack c st h in
      let (t, pushed, ht) = push_all-Holds (reverse (bases c)) s st hs in
      (record { current = some c; stack = t }, rw (popped, pushed), rw reverse_aux-reverse at ht)

  Visits-append :
      {st out mid out' rest : List ClassId}
      → Visits bases st out mid
      → Visits bases mid out' rest
      → Visits bases st (out ++ out') rest
  Visits-append stop w = w
  Visits-append (visit v) w = visit (Visits-append v w)

  pub Visits-Preorder :
      {cs out : List ClassId} (st : List ClassId)
      → Preorder bases cs out
      → Visits bases (cs ++ st) out st
  Visits-Preorder st Order.Preorder.none = stop
  Visits-Preorder st (Order.Preorder.one {c} {cs} below rest e) =
      rw e (visit (Visits-append (Visits-Preorder (cs ++ st) below) (Visits-Preorder st rest)))

module _ {S : Type 0} (bases : ClassId → List ClassId) (body : ClassId → S → Round S) where
  -- The loop body over a list, up to the round that stops.
  unfoldable pub run_over : List ClassId → S → Round S
  run_over [] s = go s
  run_over (c ∷ cs) s = elim (body c s) [ go s' ↦ run_over cs s' | halt s' ↦ halt s' ]

  pub run_over-go :
      (c : ClassId) (cs : List ClassId) (s s' : S)
      → body c s ≡ go s'
      → run_over (c ∷ cs) s ≡ run_over cs s'
  unfolding run_over
  run_over-go c cs s s' e = rw (e, run_over)

  pub run_over-halt :
      (c : ClassId) (cs : List ClassId) (s s' : S)
      → body c s ≡ halt s'
      → run_over (c ∷ cs) s ≡ halt s'
  unfolding run_over
  run_over-halt c cs s s' e = rw (e, run_over)

  walk-goes :
      (f : ℕ) (c : ClassId) (it : HierIter) (s s' : S)
      → body c s ≡ go s'
      → walk bases body (suc f) (some c) it s
        ≡ start_walk bases body f (advance_hier_iter bases it) s'
  unfolding walk
  walk-goes f c it s s' e = elim (Option-cases (advance_hier_iter bases it)) [
    | inl n ↦ rw (e, walk, n)
    | inr (r, n) ↦ rw (e, walk, n)
  ]

  walk-stops :
      (f : ℕ) (c : ClassId) (it : HierIter) (s s' : S)
      → body c s ≡ halt s'
      → walk bases body (suc f) (some c) it s ≡ done s'
  unfolding walk
  walk-stops f c it s s' e = rw (e, walk)

  halted : {s₁ s₂ : S} → halt s₁ ≡ halt s₂ → s₁ ≡ s₂
  halted e = cc

  Body-cases :
      (c : ClassId) (s : S) → ((s' : S) × (body c s ≡ go s')) ⊎ ((s' : S) × (body c s ≡ halt s'))
  Body-cases c s = by (body c s) refl
    where
      by :
          (r : Round S)
          → body c s ≡ r
          → ((s' : S) × (body c s ≡ go s')) ⊎ ((s' : S) × (body c s ≡ halt s'))
      by (go s') e = inl (s', e)
      by (halt s') e = inr (s', e)

  -- A loop whose body stops within the classes that the iterator visits.
  walk-broken :
      (f : ℕ) (it : HierIter) (s s' : S) {st out rest : List ClassId}
      → Visits bases st out rest
      → Holds it.stack st
      → length out < f
      → run_over out s ≡ halt s'
      → start_walk bases body f (advance_hier_iter bases it) s ≡ done s'
  unfolding run_over
  walk-broken zero it s s' v h lt e = absurd (omega arith)
  walk-broken (suc f) it s s' stop h lt e = cc
  walk-broken (suc f) it s s' (visit {c} {st} {out} v) h lt e =
      let (it', adv, h') = advance-cons bases it c st h in
      elim (Body-cases c s) [
        | inl (s₁, b) ↦ rw adv (
            walk-goes f c it' s s₁ b
            ∙ walk-broken f it' s₁ s' v h' (omega arith) (rw (b, run_over) at e))
        | inr (s₁, b) ↦
            rw adv (walk-stops f c it' s s₁ b ∙ ap done (halted (rw (b, run_over) at e)))
      ]

  -- A loop whose body never stops, over a hierarchy that ends.
  walk-finished :
      (f : ℕ) (it : HierIter) (s s' : S) {st out rest : List ClassId}
      → Visits bases st out rest
      → rest ≡ []
      → Holds it.stack st
      → length out < f
      → run_over out s ≡ go s'
      → start_walk bases body f (advance_hier_iter bases it) s ≡ done s'
  unfolding run_over walk
  walk-finished zero it s s' v r h lt e = absurd (omega arith)
  walk-finished (suc f) it s s' stop r h lt e =
      let (it', adv) = advance-empty bases it (rw r at h) in rw adv (ap done cc)
  walk-finished (suc f) it s s' (visit {c} {st} {out} v) r h lt e =
      let (it', adv, h') = advance-cons bases it c st h in
      elim (Body-cases c s) [
        | inl (s₁, b) ↦ rw adv (
            walk-goes f c it' s s₁ b
            ∙ walk-finished f it' s₁ s' v r h' (omega arith) (rw (b, run_over) at e))
        | inr (s₁, b) ↦ absurd (stopped (rw (b, run_over) at e))
      ]
    where
      stopped : {s₁ s₂ : S} → (halt s₁ ≡ go s₂) → ⊥
      stopped e = cc

-- The state in which a round ends.
abbrev pub result : {S : Type 0} → Round S → S
result (go s) = s
result (halt s) = s

module _ {S : Type 0} (bases : ClassId → List ClassId) (body : ClassId → S → Round S) where
  Round-cases : (r : Round S) → ((s : S) × (r ≡ go s)) ⊎ ((s : S) × (r ≡ halt s))
  Round-cases (go s) = inl (s, refl)
  Round-cases (halt s) = inr (s, refl)

  init-Holds :
      (c : ClassId) → (it : HierIter) × (init_hier_iter c ≡ some it) × Holds it.stack (c ∷ [])
  unfolding init_hier_iter
  init-Holds c =
      let (s, pushed, h) = push_stack-Holds c init_stack [] Holds-init in
      (record { current = some c; stack = s }, rw pushed, h)

  -- A loop over the hierarchy of `c`, given more rounds than there are classes, runs its body over
  -- the classes in depth-first order, most specific first, up to the round that breaks, and ends.
  pub walk_class-Preorder :
      (f : ℕ) (c : ClassId) (s : S) {out : List ClassId}
      → Preorder bases (c ∷ []) out
      → length out < f
      → walk_class bases body f c s ≡ done (result (run_over bases body out s))
  unfolding walk_class
  walk_class-Preorder f c s {out} p lt =
      let (it, made, h) = init-Holds c in
      let v = Visits-Preorder bases [] p in
      elim (Round-cases (run_over bases body out s)) [
        | inl (s', e) ↦ rw (e, made) (walk-finished bases body f it s s' v refl h lt e)
        | inr (s', e) ↦ rw (e, made) (walk-broken bases body f it s s' v h lt e)
      ]

  -- The same for a loop that skips the class itself.
  pub walk_ancestors-halt :
      (f : ℕ) (c : ClassId) (s s' : S) {out rest : List ClassId}
      → Visits bases (bases c ++ []) out rest
      → length out < f
      → run_over bases body out s ≡ halt s'
      → walk_ancestors bases body f c s ≡ done s'
  unfolding walk_ancestors
  walk_ancestors-halt f c s s' v lt e =
      let (it, made, h) = init-Holds c in
      let (it', adv, h') = advance-cons bases it c [] h in
      rw (made, adv) (walk-broken bases body f it' s s' v h' lt e)

  pub walk_ancestors-go :
      (f : ℕ) (c : ClassId) (s s' : S) {out : List ClassId}
      → Visits bases (bases c ++ []) out []
      → length out < f
      → run_over bases body out s ≡ go s'
      → walk_ancestors bases body f c s ≡ done s'
  unfolding walk_ancestors
  walk_ancestors-go f c s s' v lt e =
      let (it, made, h) = init-Holds c in
      let (it', adv, h') = advance-cons bases it c [] h in
      rw (made, adv) (walk-finished bases body f it' s s' v refl h' lt e)
