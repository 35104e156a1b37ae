-- ===== src/Inherit/Scan.antt =====
-- The scan of the ancestors for `inherit`: it enters each of them once, or stops at the first class
-- that it meets again. The class being defined already stands in its own table, which is what ends
-- the scan of a cycle.
use itcl.Prelude.{
  ◌≤◌, ◌≡◌, refl, sym, ap, ◌∙◌, inl, inr, Bool, true, false, not, ◌&&◌, ◌||◌, Option, none, some,
  List, [], ◌∷◌, ◌++◌, arith, ◌==◌, ==_iff, Bool-cases, length, has, distinct, has-append,
}
use mathlib.Core.Path.{subst}
use mathlib.Core.List.{append_assoc, append-nil}
use itcl.Classes.{ClassId}
use itcl.Hierarchy.{go, halt}
use itcl.Hierarchy.Order.{Preorder, IsA-Preorder}
use itcl.Hierarchy.Order
use itcl.Hierarchy.Iteration.{Visits, run_over, run_over-go, run_over-halt}
use itcl.Hierarchy.Iteration
use itcl.Inherit.{enter, find_twice}

-- No class of the list stands in `seen` or comes twice.
abbrev pub fresh : List ClassId → List ClassId → Bool
fresh seen [] = true
fresh seen (c ∷ cs) = not (has c seen) && fresh (seen ++ c ∷ []) cs

abbrev apart : List ClassId → List ClassId → Bool
apart seen [] = true
apart seen (c ∷ cs) = not (has c seen) && apart seen cs

apart-snoc :
    (seen : List ClassId) (c : ClassId) (cs : List ClassId)
    → apart (seen ++ c ∷ []) cs ≡ (apart seen cs && not (has c cs))
apart-snoc seen c [] = refl
apart-snoc seen c (x ∷ cs) = ground (arith, has-append x seen (c ∷ []), apart-snoc seen c cs)

fresh-eq : (seen cs : List ClassId) → fresh seen cs ≡ (apart seen cs && distinct cs)
fresh-eq seen [] = refl
fresh-eq seen (c ∷ cs) = ground (arith, fresh-eq (seen ++ c ∷ []) cs, apart-snoc seen c cs)

apart-one : (c : ClassId) (cs : List ClassId) → apart (c ∷ []) cs ≡ not (has c cs)
apart-one c [] = refl
apart-one c (x ∷ cs) = ground (arith, apart-one c cs)

pub distinct-fresh : (c : ClassId) (cs : List ClassId) → distinct (c ∷ cs) ≡ fresh (c ∷ []) cs
distinct-fresh c cs = ground (arith, fresh-eq (c ∷ []) cs, apart-one c cs)

distinct-append : (xs ys : List ClassId) → distinct (xs ++ ys) ≡ true → distinct ys ≡ true
distinct-append [] ys h = h
distinct-append (x ∷ xs) ys h = ground (arith, distinct-append xs ys)

-- If the order meets no class twice, the given classes are distinct too.
pub distinct-Preorder :
    {bases : ClassId → List ClassId} {cs out : List ClassId}
    → Preorder bases cs out
    → distinct out ≡ true
    → distinct cs ≡ true
distinct-Preorder Order.Preorder.none h = refl
distinct-Preorder (Order.Preorder.one {c} {cs} {below} {rest} p q e) h =
    let h' = ap distinct (sym e) ∙ h in
    elim (Bool-cases (has c cs)) [
      | inl again ↦
          let twice = IsA-Preorder q again Order.IsA.self in
          absurd (clash (has-append c below rest) twice h')
      | inr new ↦ ground (arith, distinct-Preorder q (distinct-append below rest (tail h')))
    ]
  where
    clash :
        has c (below ++ rest) ≡ (has c below || has c rest)
        → has c rest ≡ true
        → distinct (c ∷ below ++ rest) ≡ true
        → ⊥
    clash a b d = ground arith

    tail : distinct (c ∷ below ++ rest) ≡ true → distinct (below ++ rest) ≡ true
    tail d = ground arith

pub find_twice-distinct : (cs : List ClassId) → distinct cs ≡ true → find_twice cs ≡ none
unfolding find_twice
find_twice-distinct [] h = refl
find_twice-distinct (c ∷ cs) h = ground (arith, find_twice-distinct cs)

pub enter-known :
    (c : ClassId) (seen : List ClassId) (r : Option ClassId)
    → has c seen ≡ true
    → enter c (record { heritage = seen; repeated = r })
      ≡ halt (record { heritage = seen; repeated = some c })
unfolding enter
enter-known c seen r h = rw h

pub enter-new :
    (c : ClassId) (seen : List ClassId) (r : Option ClassId)
    → has c seen ≡ false
    → enter c (record { heritage = seen; repeated = r })
      ≡ go (record { heritage = seen ++ c ∷ []; repeated = r })
unfolding enter
enter-new c seen r h = rw h

pub has-snoc :
    (a c : ClassId) (seen : List ClassId) → has a seen ≡ true → has a (seen ++ c ∷ []) ≡ true
has-snoc a c seen h = ground (arith, has-append a seen (c ∷ []))

-- How a scan of `new` from the stack `st` stops: it enters the classes `more`, which are new, and then
-- meets one that is known.
pub record Stops (new : ClassId → List ClassId) (seen : List ClassId) (r : Option ClassId)
    (st out : List ClassId) : Type 0 where
  pub pre : List ClassId
  pub mid : List ClassId
  pub more : List ClassId
  pub behind : List ClassId
  pub again : ClassId
  pub cut : out ≡ more ++ again ∷ behind
  pub all_new : fresh seen more ≡ true
  pub known : has again (seen ++ more) ≡ true
  pub visits : Visits new st pre mid
  pub short : length pre ≤ length out
  pub stopped :
      run_over new enter pre (record { heritage = seen; repeated = r })
      ≡ halt (record { heritage = seen ++ more; repeated = some again })

-- `old` are the base lists before the bases of `icls` were added, `new` those after.
module _ (old new : ClassId → List ClassId) (icls : ClassId)
    (same : (c : ClassId) → (c == icls) ≡ false → new c ≡ old c) where
  unseen :
      (c : ClassId) (seen : List ClassId)
      → has icls seen ≡ true
      → has c seen ≡ false
      → new c ≡ old c
  unseen c seen h out = elim (Bool-cases (c == icls)) [
    | inl e ↦ absurd (clash ((==_iff c icls).0 e))
    | inr ne ↦ same c ne
  ]
    where
      clash : c ≡ icls → ⊥
      clash e = cc (ap (λ x. has x seen) e)

  -- A traversal that meets no class twice is the same in both graphs, and all of it is entered.
  pub scan-fresh :
      (seen : List ClassId) (r : Option ClassId) {st out rest : List ClassId}
      → Visits old st out rest
      → has icls seen ≡ true
      → fresh seen out ≡ true
      → Visits new st out rest
        × (run_over new enter out (record { heritage = seen; repeated = r })
            ≡ go (record { heritage = seen ++ out; repeated = r }))
  unfolding run_over
  scan-fresh seen r Iteration.stop h f = (Iteration.stop, rw append-nil)
  scan-fresh seen r (Iteration.visit {c} {st} {out} {rest} v) h f =
      let new_class : has c seen ≡ false = ground arith in
      let (w, e) = scan-fresh (seen ++ c ∷ []) r v (has-snoc icls c seen h) (ground arith) in
      (
        Iteration.visit
            (subst (λ bs. Visits new (bs ++ st) out rest) (sym (unseen c seen h new_class)) w),
        run_over-go new enter c out _ _ (enter-new c seen r new_class)
            ∙ (e
                ∙ ap (λ hs. go (record { heritage = hs; repeated = r }))
                    (append_assoc seen (c ∷ []) out)),
      )

  -- A traversal that meets a class again stops there, also where the new bases close a cycle.
  pub scan-repeated :
      (seen : List ClassId) (r : Option ClassId) {st out rest : List ClassId}
      → Visits old st out rest
      → has icls seen ≡ true
      → fresh seen out ≡ false
      → Stops new seen r st out
  unfolding run_over
  scan-repeated seen r Iteration.stop h f = absurd (clash f)
    where
      clash : true ≡ false → ⊥
      clash e = cc
  scan-repeated seen r (Iteration.visit {c} {st} {out} {rest} v) h f =
      elim (Bool-cases (has c seen)) [
        | inl known ↦ record {
          pre = c ∷ [];
          mid = new c ++ st;
          more = [];
          behind = out;
          again = c;
          cut = refl;
          all_new = refl;
          known = rw append-nil known;
          visits = Iteration.visit Iteration.stop;
          short = omega arith;
          stopped = run_over-halt new enter c [] _ _ (rw append-nil (enter-known c seen r known));
        }
        | inr new_class ↦
            let s =
              scan-repeated (seen ++ c ∷ []) r v (has-snoc icls c seen h)
                (later c seen out new_class f) in
            record {
              pre = c ∷ s.pre;
              mid = s.mid;
              more = c ∷ s.more;
              behind = s.behind;
              again = s.again;
              cut = ap (λ xs. c ∷ xs) s.cut;
              all_new = earlier c seen s.more new_class s.all_new;
              known = ap (has s.again) (sym (append_assoc seen (c ∷ []) s.more)) ∙ s.known;
              visits = Iteration.visit (
                  subst (λ bs. Visits new (bs ++ st) s.pre s.mid) (sym (unseen c seen h new_class))
                    s.visits);
              short = omega (arith, s.short);
              stopped =
                  run_over-go new enter c s.pre _ _ (enter-new c seen r new_class)
                  ∙ (s.stopped
                      ∙ ap (λ hs. halt (record { heritage = hs; repeated = some s.again }))
                          (append_assoc seen (c ∷ []) s.more));
            }
      ]
    where
      later :
          (c : ClassId) (seen out : List ClassId)
          → has c seen ≡ false
          → fresh seen (c ∷ out) ≡ false
          → fresh (seen ++ c ∷ []) out ≡ false
      later c seen out a b = ground arith

      earlier :
          (c : ClassId) (seen more : List ClassId)
          → has c seen ≡ false
          → fresh (seen ++ c ∷ []) more ≡ true
          → fresh seen (c ∷ more) ≡ true
      earlier c seen more a b = ground arith
