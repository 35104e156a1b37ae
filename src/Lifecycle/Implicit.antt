-- ===== src/Lifecycle/Implicit.antt =====
-- The recursion of Itcl_ConstructBase against the list of Build.antt, where no script calls a
-- constructor itself.
use mathlib.Core.List.{reverse, reverse_aux-eq}
use itcl.Prelude.{
  ℕ, zero, suc, ◌+◌, ◌*◌, ◌≤◌, ◌≡◌, refl, ap, ◌∙◌, sym, true, false, Option, none, some, List, [],
  ◌∷◌, ◌++◌, map, arith, if◌then◌else◌, has, length, length-append, Bool-cases, inl, inr,
  Option-cases,
}
use itcl.Classes.{ClassId}
use itcl.Hierarchy.Order.{Preorder, none, one}
use itcl.Lifecycle.{
  ClassName, ClassCode, Script, Code, ok, error, done, fail, Progress, Ran, ended, fault,
  out_of_fuel, and_then, after_call, run_script, start_body,
}
use itcl.Lifecycle.Construct.{
  Task, base_only, with_body, construct, construct_absent, construct_one, construct_bases,
  construct_base, construct_guts, call_constructor, construct_task,
}
use itcl.Lifecycle.Chains.{
  and_then_assoc, and_then-congr, and_then-ended, run_own, settle, settle-and_then, Within,
}
use itcl.Lifecycle.Build.{
  fresh, fresh-append, fresh-tail, build, build_own, build-append, build-Within,
}

abbrev pub plain_script : Code → Script
plain_script ok = done
plain_script error = fail

abbrev pub plain_scripts : Option Code → Option Script
plain_scripts none = none
plain_scripts (some r) = some (plain_script r)

-- No script calls a constructor; the init code succeeds, and a constructor ends as `runs` says.
unfoldable pub IsPlain : (ClassId → ClassCode) → (ClassId → Option Code) → Type 0
IsPlain code runs =
    (c : ClassId) → ((code c).init_code ≡ done) × ((code c).constructor ≡ plain_scripts (runs c))

module _ (code : ClassId → ClassCode) (rec : Task → ClassId → Progress → Ran) where
  construct_bases-append :
      (xs ys : List ClassId) (p : Progress)
      → construct_bases code rec (xs ++ ys) p
        ≡ and_then (construct_bases code rec xs p) (construct_bases code rec ys)
  unfolding construct_bases
  construct_bases-append [] ys p = refl
  construct_bases-append (x ∷ xs) ys p =
      and_then-congr (construct_one code rec x p.table p) (construct_bases code rec (xs ++ ys))
        (λ q. and_then (construct_bases code rec xs q) (construct_bases code rec ys))
        (λ q e. construct_bases-append xs ys q)
      ∙ sym (
          and_then_assoc (construct_one code rec x p.table p) (construct_bases code rec xs)
            (construct_bases code rec ys))

  -- The last class of a reversed list comes first.
  construct_bases-reverse :
      (c : ClassId) (cs : List ClassId) (p : Progress)
      → construct_bases code rec (reverse (c ∷ cs)) p
        ≡ and_then
            (construct_bases code rec (reverse cs) p)
            (λ q. construct_one code rec c q.table q)
  unfolding construct_bases
  construct_bases-reverse c cs p =
      ap (λ xs. construct_bases code rec xs p) (reverse_aux-eq cs (c ∷ []))
      ∙ construct_bases-append (reverse cs) (c ∷ []) p
      ∙ and_then-congr (construct_bases code rec (reverse cs) p) (construct_bases code rec (c ∷ []))
          (λ q. construct_one code rec c q.table q)
          (λ q e. and_then-ended (construct_one code rec c q.table q))

settle-after_call :
    (nm : ClassId → ClassName) (runs : ClassId → Option Code) (invoke : ClassId → Progress → Ran)
    (c : ClassId) (r : Code) (x : Ran)
    → settle
        (after_call (nm c) (and_then x (λ q. run_script invoke (plain_script r) (start_body c q))))
      ≡ and_then (settle x) (λ q. settle (run_own (nm c) c (some r) q))
unfolding settle after_call and_then run_script run_own
settle-after_call nm runs invoke c ok (ended ok q) = refl
settle-after_call nm runs invoke c error (ended ok q) = refl
settle-after_call nm runs invoke c r (ended error q) = refl
settle-after_call nm runs invoke c r fault = refl
settle-after_call nm runs invoke c r out_of_fuel = refl

module _ (code : ClassId → ClassCode) (runs : ClassId → Option Code) where
  abbrev name_of : ClassId → ClassName
  name_of c = (code c).name

  -- The bases of a class are constructed along the list, from any table with names of `u` only.
  pub Follows : ClassId → List ClassId → ℕ → List ClassName → Type 0
  Follows c below fuel u =
      (p : Progress) (t : List ClassName)
      → p.table ≡ some t
      → Within t u
      → settle (construct code fuel base_only c p) ≡ build name_of runs below p

  module _ (plain : IsPlain code runs) (c : ClassId) (below : List ClassId) where
    with_body-Follows :
        (g : ℕ) (u : List ClassName) (p : Progress) (t : List ClassName) (r : Code)
        → Follows c below g u
        → p.table ≡ some t
        → Within t u
        → runs c ≡ some r
        → settle (construct code (suc g) with_body c p) ≡ build name_of runs (c ∷ below) p
    unfolding construct construct_task call_constructor construct_guts Follows build build_own
        IsPlain
    with_body-Follows g u p t r follows h w e =
        let rec = construct code g in
        let body = λ (q : Progress). run_script (rec with_body) (plain_script r) (start_body c q) in
        ap (λ s. settle (call_constructor code rec c s p)) ((plain c).1 ∙ ap plain_scripts e)
        ∙ ap (λ o. settle (after_call (name_of c) (and_then (construct_guts code rec c o p) body)))
            h
        ∙ settle-after_call name_of runs (rec with_body) c r (rec base_only c p)
        ∙ ap (λ x. and_then x (λ q. settle (run_own (name_of c) c (some r) q))) (follows p t h w)
        ∙ ap (λ o. and_then (build name_of runs below p) (λ q. settle (run_own (name_of c) c o q)))
            (sym e)

    absent-Follows :
        (g : ℕ) (u : List ClassName) (p : Progress) (t : List ClassName)
        → Follows c below g u
        → Follows c below (suc g) u
        → p.table ≡ some t
        → Within t u
        → settle (construct_absent code (construct code (suc g)) c (code c).constructor p)
          ≡ build name_of runs (c ∷ below) p
    unfolding construct_absent Follows build build_own run_own settle IsPlain
    absent-Follows g u p t follows again h w =
        let rec = construct code (suc g) in
        elim (Option-cases (runs c)) [
          | inl e ↦
              ap (λ s. settle (construct_absent code rec c s p)) ((plain c).1 ∙ ap plain_scripts e)
              ∙ again p t h w
              ∙ sym (
                  ap
                    (λ o.
                      and_then (build name_of runs below p)
                        (λ q. settle (run_own (name_of c) c o q)))
                    e
                  ∙ and_then-congr (build name_of runs below p)
                      (λ q. settle (run_own (name_of c) c none q)) (ended ok) (λ q x. refl)
                  ∙ and_then-ended (build name_of runs below p))
          | inr (r, e) ↦
              ap (λ s. settle (construct_absent code rec c s p)) ((plain c).1 ∙ ap plain_scripts e)
              ∙ with_body-Follows g u p t r follows h w e
        ]

    one-Follows :
        (g : ℕ) (u : List ClassName) (p : Progress) (t : List ClassName)
        → Follows c below g u
        → Follows c below (suc g) u
        → fresh name_of (c ∷ below) u ≡ true
        → p.table ≡ some t
        → Within t u
        → settle (construct_one code (construct code (suc g)) c p.table p)
          ≡ build name_of runs (c ∷ below) p
    unfolding construct_one fresh
    one-Follows g u p t follows again new h w =
        let rec = construct code (suc g) in
        let absent : has (name_of c) t ≡ false = elim (Bool-cases (has (name_of c) t)) [
          | inl e ↦ ground (arith, w (name_of c) e)
          | inr e ↦ e
        ] in
        ap (λ o. settle (construct_one code rec c o p)) h
        ∙ ap
            (λ b.
              settle (if b then ended ok p else construct_absent code rec c (code c).constructor p))
            absent
        ∙ absent-Follows g u p t follows again h w

  one_size :
      (c : ClassId) (below rest out : List ClassId) (fuel : ℕ)
      → out ≡ c ∷ below ++ rest
      → 2 * length out ≤ fuel
      → 2 + 2 * length below + 2 * length rest ≤ fuel
  one_size c below rest out fuel e f = omega (arith, length-append below rest, ap length e)

  too_small : (k : ℕ) (xs ys : List ClassId) → k ≤ 1 → 2 + 2 * length xs + 2 * length ys ≤ k → ⊥
  too_small k xs ys l h = omega arith

  bases-Follows :
      (c : ClassId) (below : List ClassId) (g : ℕ) (u : List ClassName)
      → IsPlain code runs
      → ((p : Progress) (t : List ClassName)
          → p.table ≡ some t
          → Within t u
          → settle (construct_bases code (construct code g) (reverse (code c).bases) p)
            ≡ build name_of runs below p)
      → Follows c below (suc g) u
  unfolding construct construct_task construct_base run_script and_then Follows IsPlain
  bases-Follows c below g u plain along p t h w =
      ap
        (λ s. settle (
          and_then (run_script (construct code g with_body) s p)
            (construct_bases code (construct code g) (reverse (code c).bases))))
        (plain c).0
      ∙ along p t h w

  pub construct_bases-Preorder :
      {cs out : List ClassId}
      → IsPlain code runs
      → Preorder (λ c. (code c).bases) cs out
      → (fuel : ℕ) (u : List ClassName) (p : Progress) (t : List ClassName) → 2 * length out ≤ fuel
      → fresh name_of out u ≡ true
      → p.table ≡ some t
      → Within t u
      → settle (construct_bases code (construct code fuel) (reverse cs) p)
        ≡ build name_of runs out p
  unfolding construct_bases settle build
  construct_bases-Preorder plain none fuel u p t f new h w = refl
  construct_bases-Preorder plain (one {c} {below} {rest} {out} pre q e) zero u p t f new h w =
      absurd (too_small 0 below rest (omega arith) (one_size c below rest out 0 e f))
  construct_bases-Preorder plain (one {c} {below} {rest} {out} pre q e) (suc zero) u p t f new h w =
      absurd (too_small 1 below rest (omega arith) (one_size c below rest out 1 e f))
  construct_bases-Preorder plain (one {c} {cs} {below} {rest} {out} pre q e) (suc (suc g)) u p t f
        new h w =
      let rec = construct code (suc (suc g)) in
      let size = one_size c below rest out (suc (suc g)) e f in
      let (old, fresh_c) =
        fresh-append name_of (c ∷ below) rest u (ap (λ xs. fresh name_of xs u) (sym e) ∙ new) in
      let v = map name_of rest ++ u in
      let new_below = fresh-tail name_of c below v fresh_c in
      let follows = bases-Follows c below g v plain (λ q' t' h' w'.
        construct_bases-Preorder plain pre g v q' t' (omega arith) new_below h' w') in
      let again = bases-Follows c below (suc g) v plain (λ q' t' h' w'.
        construct_bases-Preorder plain pre (suc g) v q' t' (omega arith) new_below h' w') in
      ap settle (construct_bases-reverse code rec c cs p)
      ∙ settle-and_then (construct_bases code rec (reverse cs) p)
          (λ q. construct_one code rec c q.table q)
      ∙ ap (λ x. and_then x (λ q. settle (construct_one code rec c q.table q)))
          (construct_bases-Preorder plain q (suc (suc g)) u p t (omega arith) old h w)
      ∙ and_then-congr (build name_of runs rest p)
          (λ q. settle (construct_one code rec c q.table q)) (build name_of runs (c ∷ below))
          (λ m ended_rest.
            let (t', h', w') = build-Within name_of runs rest p m t u ended_rest h w in
            one-Follows plain c below (suc g) v m t' follows again fresh_c h' w')
      ∙ sym (build-append name_of runs (c ∷ below) rest p)
      ∙ ap (λ xs. build name_of runs xs p) (sym e)
