-- ===== src/Lifecycle/Unwind.antt =====
-- The recursion of ItclDestructBase against the list of Raze.antt, where no script calls a destructor
-- itself.
use itcl.Prelude.{
  ℕ, zero, suc, ◌+◌, ◌≤◌, ◌≡◌, refl, ap, ◌∙◌, sym, true, false, Option, none, some, List, ◌∷◌, ◌++◌,
  map, arith, if◌then◌else◌, has, length, length-append, Bool-cases, inl, inr,
}
use itcl.Classes.{ClassId}
use itcl.Hierarchy.Order.{Preorder, none, one}
use itcl.Lifecycle.{
  ClassName, ClassCode, Code, ok, error, Progress, ended, and_then, after_call, run_script,
}
use itcl.Lifecycle.Destruct.{
  with_bases, destruct, destruct_own, destruct_one, destruct_bases, call_destructor, destruct_task,
}
use itcl.Lifecycle.Chains.{and_then-congr, run_own, run_own-Within, Within}
use itcl.Lifecycle.Build.{fresh}
use itcl.Lifecycle.Raze.{fresh-cons, fresh-later, raze, raze-append, raze-Within}
use itcl.Lifecycle.Implicit.{plain_scripts}

-- No script calls a destructor; a destructor ends as `runs` says.
unfoldable pub IsPlain : (ClassId → ClassCode) → (ClassId → Option Code) → Type 0
IsPlain code runs = (c : ClassId) → (code c).destructor ≡ plain_scripts (runs c)

module _ (code : ClassId → ClassCode) (runs : ClassId → Option Code) where
  abbrev name_of : ClassId → ClassName
  name_of c = (code c).name

  own-plain :
      (g : ℕ) (c : ClassId) (r : Option Code) (p : Progress)
      → (code c).destructor ≡ plain_scripts r
      → destruct_own code (destruct code (suc g)) c (plain_scripts r) p ≡ run_own (name_of c) c r p
  unfolding destruct destruct_own destruct_task call_destructor after_call run_script run_own
  own-plain g c none p e = refl
  own-plain g c (some ok) p e = ap (λ s. call_destructor code (destruct code g) c s p) e
  own-plain g c (some error) p e = ap (λ s. call_destructor code (destruct code g) c s p) e

  module _ (plain : IsPlain code runs) (c : ClassId) (below : List ClassId) where
    one_own :
        (g : ℕ) (u : List ClassName) (p : Progress) (t : List ClassName)
        → fresh name_of (c ∷ below) u ≡ true
        → p.table ≡ some t
        → Within t u
        → destruct_one code (destruct code (suc g)) c p.table p ≡ run_own (name_of c) c (runs c) p
    unfolding destruct_one fresh IsPlain
    one_own g u p t new h w =
        let rec = destruct code (suc g) in
        let absent : has (name_of c) t ≡ false = elim (Bool-cases (has (name_of c) t)) [
          | inl e ↦ ground (arith, w (name_of c) e)
          | inr e ↦ e
        ] in
        ap (λ o. destruct_one code rec c o p) h
        ∙ ap (λ b. if b then ended ok p else destruct_own code rec c (code c).destructor p) absent
        ∙ ap (λ s. destruct_own code rec c s p) (plain c)
        ∙ own-plain g c (runs c) p (plain c)

    fresh_below :
        (u : List ClassName)
        → fresh name_of (c ∷ below) u ≡ true
        → fresh name_of below (name_of c ∷ u) ≡ true
    unfolding fresh
    fresh_below u new = fresh-cons name_of (name_of c) below u (ground arith) (ground arith)

    pub with_bases-Follows :
        (g : ℕ) (u : List ClassName) (p : Progress) (t : List ClassName)
        → ((q : Progress) (v : List ClassName)
            → q.table ≡ some v
            → Within v (name_of c ∷ u)
            → fresh name_of below (name_of c ∷ u) ≡ true
            → destruct_bases code (destruct code (suc g)) (code c).bases q
              ≡ raze name_of runs below q)
        → fresh name_of (c ∷ below) u ≡ true
        → p.table ≡ some t
        → Within t u
        → destruct code (suc (suc g)) with_bases c p ≡ raze name_of runs (c ∷ below) p
    unfolding destruct destruct_task raze
    with_bases-Follows g u p t along new h w =
        let bases = destruct_bases code (destruct code (suc g)) (code c).bases in
        ap (λ r. and_then r bases) (one_own g u p t new h w)
        ∙ and_then-congr (run_own (name_of c) c (runs c) p) bases (raze name_of runs below) (λ q e.
          let (v, hv, wv) = run_own-Within (name_of c) c (runs c) p q t u e h w in
          along q v hv wv (fresh_below u new))

  one_size :
      (c : ClassId) (below rest out : List ClassId) (fuel : ℕ)
      → out ≡ c ∷ below ++ rest
      → 1 + length out ≤ fuel
      → 2 + length below + length rest ≤ fuel
  one_size c below rest out fuel e f = omega (arith, length-append below rest, ap length e)

  too_small : (k : ℕ) (xs ys : List ClassId) → k ≤ 1 → 2 + length xs + length ys ≤ k → ⊥
  too_small k xs ys l h = omega arith

  pub destruct_bases-Preorder :
      {cs out : List ClassId}
      → IsPlain code runs
      → Preorder (λ c. (code c).bases) cs out
      → (fuel : ℕ) (u : List ClassName) (p : Progress) (t : List ClassName) → 1 + length out ≤ fuel
      → fresh name_of out u ≡ true
      → p.table ≡ some t
      → Within t u
      → destruct_bases code (destruct code fuel) cs p ≡ raze name_of runs out p
  unfolding destruct_bases raze
  destruct_bases-Preorder plain none fuel u p t f new h w = refl
  destruct_bases-Preorder plain (one {c} {below} {rest} {out} pre q e) zero u p t f new h w =
      absurd (too_small 0 below rest (omega arith) (one_size c below rest out 0 e f))
  destruct_bases-Preorder plain (one {c} {below} {rest} {out} pre q e) (suc zero) u p t f new h w =
      absurd (too_small 1 below rest (omega arith) (one_size c below rest out 1 e f))
  destruct_bases-Preorder plain (one {c} {cs} {below} {rest} {out} pre later e) (suc (suc g)) u p t
        f new h w =
      let size = one_size c below rest out (suc (suc g)) e f in
      let (fresh_c, fresh_rest) =
        fresh-later name_of (c ∷ below) rest u (ap (λ xs. fresh name_of xs u) (sym e) ∙ new) in
      let rec = destruct code (suc (suc g)) in
      ap (λ r. and_then r (destruct_bases code rec cs))
        (with_bases-Follows plain c below g u p t
          (λ q v hv wv fv.
            destruct_bases-Preorder plain pre (suc g) (name_of c ∷ u) q v (omega arith) fv hv wv)
          fresh_c h w)
      ∙ and_then-congr (raze name_of runs (c ∷ below) p) (destruct_bases code rec cs)
          (raze name_of runs rest)
          (λ q done_c.
            let (v, hv, wv) = raze-Within name_of runs (c ∷ below) p q t u done_c h w in
            destruct_bases-Preorder plain later (suc (suc g)) (map name_of (c ∷ below) ++ u) q v
              (omega arith) fresh_rest hv wv)
      ∙ sym (raze-append name_of runs (c ∷ below) rest p)
      ∙ ap (λ xs. raze name_of runs xs p) (sym e)
