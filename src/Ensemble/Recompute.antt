-- ===== src/Ensemble/Recompute.antt =====
-- The three calls of ComputeMinChars in CreateEnsemblePart (generic/itclEnsemble.c).
use itcl.Prelude.{
  ℕ, zero, suc, ◌+◌, ◌≡◌, ◌≢◌, refl, ap, ◌∙◌, sym, ◌<◌, some, arith, inl, inr, Bool-cases, ◌>>=◌,
  ◌==◌, ==_iff,
}
use itcl.Ensemble.Search.{cell}
use itcl.Ensemble.Parts.{compute_three, Ensemble, compute_min_chars, compute_before}
use itcl.Ensemble.MinChars.{
  Exact, IsFilled, SameNames, Exact-SameNames, compute_min_chars-IsComputed, IsFilled-SameNames,
}
use itcl.Ensemble.Far.{Exact-eq}

-- The call of ComputeMinChars for the part before a position.
pub record IsComputedBefore (pos : ℕ) (e e' : Ensemble) : Type 0 where
  pub same_names : SameNames e e'
  pub exact : (i : ℕ) → pos ≡ i + 1 → i < e.num_parts → Exact e' i
  pub others : (j : ℕ) → pos ≢ j + 1 → cell e'.parts j ≡ cell e.parts j

compute_before-IsComputed :
    (pos : ℕ) (e : Ensemble)
    → IsFilled e
    → (e' : Ensemble) × (compute_before pos e ≡ some e') × IsComputedBefore pos e e'
unfolding compute_before
compute_before-IsComputed zero e k = (
  e,
  refl,
  record {
    same_names = record { num = refl; max = refl; size = refl; names = λ j. refl };
    exact = λ i q. absurd (omega arith);
    others = λ j n. refl;
  },
)
compute_before-IsComputed (suc i) e k =
    let (e', r, c) = compute_min_chars-IsComputed i e k in
    (
      e',
      r,
      record {
        same_names = c.same_names;
        exact = λ j q u. Exact-eq e' i j (omega arith) (c.exact (omega arith));
        others = λ j n. c.others j (λ q. n (omega (arith, q)));
      },
    )

pub record IsRecomputed (pos : ℕ) (e e' : Ensemble) : Type 0 where
  pub same_names : SameNames e e'
  pub exact : (j : ℕ) → j < e.num_parts → Exact e' j

SameNames-trans : (a b c : Ensemble) → SameNames a b → SameNames b c → SameNames a c
SameNames-trans a b c s t = record {
  num = t.num ∙ s.num;
  max = t.max ∙ s.max;
  size = t.size ∙ s.size;
  names = λ j. t.names j ∙ s.names j;
}

pub compute_three-IsRecomputed :
    (pos : ℕ) (e : Ensemble)
    → IsFilled e
    → ((j : ℕ) → j < e.num_parts → j ≢ pos → j ≢ pos + 1 → j + 1 ≢ pos → Exact e j)
    → (e' : Ensemble) × (compute_three pos e ≡ some e') × IsRecomputed pos e e'
unfolding compute_three
compute_three-IsRecomputed pos e k far =
    let (e₁, r₁, c₁) = compute_min_chars-IsComputed pos e k in
    let k₁ = IsFilled-SameNames e e₁ k c₁.same_names in
    let (e₂, r₂, c₂) = compute_before-IsComputed pos e₁ k₁ in
    let k₂ = IsFilled-SameNames e₁ e₂ k₁ c₂.same_names in
    let (e₃, r₃, c₃) = compute_min_chars-IsComputed (pos + 1) e₂ k₂ in
    let last : (j : ℕ) → j ≢ pos + 1 → Exact e₂ j → Exact e₃ j =
      λ j n x. Exact-SameNames e₂ e₃ j c₃.same_names (c₃.others j (λ q. n (sym q))) x in
    let middle : (j : ℕ) → j + 1 ≢ pos → Exact e₁ j → Exact e₂ j =
      λ j n x. Exact-SameNames e₁ e₂ j c₂.same_names (c₂.others j (λ q. n (sym q))) x in
    (
      e₃,
      ap (λ o. o >>= (λ e. compute_before pos e >>= compute_min_chars (pos + 1))) r₁
          ∙ (ap (λ o. o >>= compute_min_chars (pos + 1)) r₂ ∙ r₃),
      record {
        same_names =
            SameNames-trans e e₂ e₃ (SameNames-trans e e₁ e₂ c₁.same_names c₂.same_names)
              c₃.same_names;
        exact = λ j u. elim (Bool-cases (j == pos)) [
          | inl b ↦
              let q = (==_iff j pos).0 b in
              last j (λ n. absurd (omega (arith, q, n)))
                (middle j (λ n. absurd (omega (arith, q, n)))
                  (Exact-eq e₁ pos j (sym q) (c₁.exact (omega (arith, q)))))
          | inr b ↦ elim (Bool-cases (j + 1 == pos)) [
            | inl c ↦
                let q = (==_iff (j + 1) pos).0 c in
                last j (λ n. absurd (omega (arith, q, n)))
                  (c₂.exact j (sym q) (omega (arith, c₁.same_names.num)))
            | inr c ↦ elim (Bool-cases (j == pos + 1)) [
              | inl d ↦
                  let q = (==_iff j (pos + 1)).0 d in
                  Exact-eq e₃ (pos + 1) j (sym q)
                    (c₃.exact (omega (arith, q, c₁.same_names.num, c₂.same_names.num)))
              | inr d ↦
                  last j (λ n. ground (arith, d, n))
                    (middle j (λ n. ground (arith, c, n))
                      (Exact-SameNames e e₁ j c₁.same_names
                        (c₁.others j (λ n. ground (arith, b, n)))
                        (far j u (λ n. ground (arith, b, n)) (λ n. ground (arith, d, n))
                          (λ n. ground (arith, c, n)))))
            ]
          ]
        ];
      },
    )
