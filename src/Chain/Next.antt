-- ===== src/Chain/Next.antt =====
-- The implementation that `chain` invokes is the next one in depth-first order.
use mathlib.Core.Path.{subst}
use itcl.Prelude.{
  ℕ, zero, suc, ◌<◌, ◌≡◌, refl, ap, ◌∙◌, Bool, false, Option, none, some, List, [], ◌∷◌, ◌++◌,
  arith, ◌==◌, ==_refl, if◌then◌else◌, has, length, length-append, get_elem?, ◌>>=◌,
}
use itcl.Prelude.Bytes.{Bytes}
use itcl.Stack.{init_stack}
use itcl.Stack.Contents.{Holds, Holds-init, push_stack-Holds}
use itcl.Classes.{ClassId, find_entry, Info, bases_of}
use itcl.Hierarchy.{HierIter, init_hier_iter}
use itcl.Hierarchy.Order.{Preorder}
use itcl.Hierarchy.Iteration.{Visits, stop, visit, Visits-Preorder, advance-cons, advance-empty}
use itcl.Paths.{parse_namesp_path}
use itcl.Chain.{
  Chained, invoke_or, nothing, at, ClassContext, Frame, name_index, skip_to, skip_with, search_next,
  search_with, search_skipped, skip_from, skip_one, skip_first, skip_to_context, chain_word,
  chain_cmd,
}

-- The first class of the list that has a function of the name.
abbrev pub next_of : Info → Bytes → List ClassId → Chained
next_of i name [] = nothing
next_of i name (c ∷ cs) = invoke_or (next_of i name cs) (find_entry name (i.classes c).functions)

search_next-next_of :
    (i : Info) (name : Bytes) (fuel : ℕ) (it : HierIter) {st out rest : List ClassId}
    → Visits (bases_of i) st out rest
    → rest ≡ []
    → Holds it.stack st
    → length out < fuel
    → search_next i name fuel it ≡ next_of i name out
unfolding search_next
search_next-next_of i name zero it v r h f = absurd (omega arith)
search_next-next_of i name (suc fuel) it stop r h f =
    let (it', adv) = advance-empty (bases_of i) it (subst (Holds it.stack) r h) in
    ap (search_with i name (search_next i name fuel)) adv
search_next-next_of i name (suc fuel) it (visit {c} {st} {out} v) r h f =
    let (it', adv, h') = advance-cons (bases_of i) it c st h in
    ap (search_with i name (search_next i name fuel)) adv
    ∙ ap (λ x. invoke_or x (find_entry name (i.classes c).functions))
        (search_next-next_of i name fuel it' v r h' (omega arith))

cons_head : {x y : ClassId} {xs ys : List ClassId} → x ∷ xs ≡ y ∷ ys → x ≡ y
cons_head e = cc

cons_tail : {x y : ClassId} {xs ys : List ClassId} → x ∷ xs ≡ y ∷ ys → xs ≡ ys
cons_tail e = cc

nil_cons : {x : ClassId} {xs : List ClassId} → [] ≡ x ∷ xs → ⊥
nil_cons e = cc

not_rest : (k b : ClassId) (xs : List ClassId) → has k (b ∷ xs) ≡ false → has k xs ≡ false
not_rest k b xs n = ground arith

not_first : (k b : ClassId) (xs : List ClassId) → has k (b ∷ xs) ≡ false → (b == k) ≡ false
not_first k b xs n = ground arith

-- The first loop stops behind the class that it looks for.
skip_to-Visits :
    (bases : ClassId → List ClassId) (icls : ClassId) (fuel : ℕ) (it : HierIter)
    (before after : List ClassId) {st out : List ClassId}
    → Visits bases st out []
    → out ≡ before ++ icls ∷ after
    → has icls before ≡ false
    → Holds it.stack st
    → length before < fuel
    → (it' : HierIter) × (st' : List ClassId) × (skip_to bases icls fuel it ≡ at it')
      × Visits bases st' after []
      × Holds it'.stack st'
unfolding skip_to
skip_to-Visits bases icls zero it before after v e n h f = absurd (omega arith)
skip_to-Visits bases icls (suc fuel) it [] after stop e n h f = absurd (nil_cons e)
skip_to-Visits bases icls (suc fuel) it (b ∷ before) after stop e n h f = absurd (nil_cons e)
skip_to-Visits bases icls (suc fuel) it [] after (visit {c} {st} {out} v) e n h f =
    let (it', adv, h') = advance-cons bases it c st h in
    (
      it',
      bases c ++ st,
      ap (skip_with icls (skip_to bases icls fuel)) adv
          ∙ ap (λ k. if k == icls then at it' else skip_to bases icls fuel it') (cons_head e)
          ∙ ap (λ b. if b then at it' else skip_to bases icls fuel it') (==_refl icls),
      subst (λ xs. Visits bases (bases c ++ st) xs []) (cons_tail e) v,
      h',
    )
skip_to-Visits bases icls (suc fuel) it (b ∷ before) after (visit {c} {st} {out} v) e n h f =
    let (it', adv, h') = advance-cons bases it c st h in
    let (it2, st2, run, v2, h2) =
      skip_to-Visits bases icls fuel it' before after v (cons_tail e) (not_rest icls b before n) h'
        (omega arith) in
    (
      it2,
      st2,
      ap (skip_with icls (skip_to bases icls fuel)) adv
          ∙ ap (λ k. if k == icls then at it' else skip_to bases icls fuel it') (cons_head e)
          ∙ ap (λ x. if x then at it' else skip_to bases icls fuel it') (not_first icls b before n)
          ∙ run,
      v2,
      h2,
    )

-- Without an object the first class is the one that is looked for.
skip_one-Visits :
    (bases : ClassId → List ClassId) (icls : ClassId) (it : HierIter) (before after : List ClassId)
    {out : List ClassId}
    → Visits bases (icls ∷ []) out []
    → out ≡ before ++ icls ∷ after
    → has icls before ≡ false
    → Holds it.stack (icls ∷ [])
    → (it' : HierIter) × (st' : List ClassId) × (skip_one bases (some it) ≡ at it')
      × Visits bases st' after []
      × Holds it'.stack st'
skip_one-Visits bases icls it [] after (visit {c} {st} {out} v) e n h =
    let (it', adv, h') = advance-cons bases it c st h in
    (
      it',
      bases c ++ st,
      ap skip_first adv,
      subst (λ xs. Visits bases (bases c ++ st) xs []) (cons_tail e) v,
      h',
    )
skip_one-Visits bases icls it (b ∷ before) after (visit v) e n h =
    absurd (first_twice icls b before (cons_head e) n)
  where
    first_twice : (k b : ClassId) (xs : List ClassId) → k ≡ b → has k (b ∷ xs) ≡ false → ⊥
    first_twice k b xs e n = ground arith

init_hier_iter-Holds :
    (c : ClassId) → (it : HierIter) × (init_hier_iter c ≡ some it) × Holds it.stack (c ∷ [])
unfolding init_hier_iter
init_hier_iter-Holds c =
    let (s, pushed, h) = push_stack-Holds c init_stack [] Holds-init in
    (
      record { current = some c; stack = s },
      ap (λ o. o >>= (λ t. some (record { current = some c; stack = t }))) pushed,
      h,
    )

-- The class where the iterator starts.
abbrev start_class : ClassContext → ClassId
start_class c = elim c.object_class [ none ↦ c.icls | some k ↦ k ]

skip_to_context-Visits :
    (i : Info) (fuel : ℕ) (icls : ClassId) (o : Option ClassId) (before after : List ClassId)
    {out : List ClassId}
    → Preorder (bases_of i) (start_class (record { icls = icls; object_class = o }) ∷ []) out
    → out ≡ before ++ icls ∷ after
    → has icls before ≡ false
    → length before < fuel
    → (it : HierIter) × (st : List ClassId) × (skip_to_context i fuel
          (record { icls = icls; object_class = o })
          o
        ≡ at it)
      × Visits (bases_of i) st after []
      × Holds it.stack st
unfolding skip_to_context
skip_to_context-Visits i fuel icls none before after pre e n f =
    let (it, made, h) = init_hier_iter-Holds icls in
    let (it', st, run, v, h') =
      skip_one-Visits (bases_of i) icls it before after (Visits-Preorder (bases_of i) [] pre) e n
        h in
    (it', st, ap (skip_one (bases_of i)) made ∙ run, v, h')
skip_to_context-Visits i fuel icls (some k) before after pre e n f =
    let (it, made, h) = init_hier_iter-Holds k in
    let (it', st, run, v, h') =
      skip_to-Visits (bases_of i) icls fuel it before after (Visits-Preorder (bases_of i) [] pre) e
        n h f in
    (it', st, ap (skip_from (bases_of i) icls fuel) made ∙ run, v, h')

-- A method of the class `icls` runs, for an object whose class has the order `before`, `icls`, `after`,
-- where `icls` is not among the classes before, or without an object, where the order is that of `icls`
-- itself; and the call frame has a word for the method. Then `chain`, given more rounds than there are
-- classes, invokes the function that the first of the classes in `after` with a function of the tail of
-- that word has, also if that class is no base of `icls`, and does nothing if there is none.
pub chain_cmd-next :
    (i : Info) (fuel : ℕ) (bare : Bool) (icls : ClassId) (o : Option ClassId) (f : Frame)
    (w : Bytes) (before after : List ClassId) {out : List ClassId}
    → Preorder (bases_of i) (start_class (record { icls = icls; object_class = o }) ∷ []) out
    → out ≡ before ++ icls ∷ after
    → has icls before ≡ false
    → length out < fuel
    → get_elem? f.words (name_index bare f) ≡ some w
    → chain_cmd i fuel bare (some (record { icls = icls; object_class = o })) (some f)
      ≡ next_of i (parse_namesp_path w).tail after
unfolding chain_cmd
chain_cmd-next i fuel bare icls o f w before after {out} pre e n lt word =
    let c : ClassContext = record { icls = icls; object_class = o } in
    let name = (parse_namesp_path w).tail in
    let len = ap length e ∙ length-append before (icls ∷ after) in
    let (it, st, run, v, h) =
      skip_to_context-Visits i fuel icls o before after pre e n (omega (arith, len, lt)) in
    ap (chain_word i fuel c) word
    ∙ ap (search_skipped i name fuel) run
    ∙ search_next-next_of i name fuel it v refl h (omega (arith, len, lt))
