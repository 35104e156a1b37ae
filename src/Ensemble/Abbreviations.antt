-- ===== src/Ensemble/Abbreviations.antt =====
-- What FindEnsemblePart of generic/itclEnsemble.c finds: unique abbreviations and exact names.
use itcl.Prelude.{
  ℕ, ◌+◌, ◌-◌, ◌≡◌, ◌≢◌, ap, ◌∙◌, sym, ◌<◌, ◌≤◌, Bool, true, false, ◌&&◌, ◌||◌, List, ◌∷◌, some,
  ltb, length, arith, inl, inr, Bool-cases, compare-cases, ltb_of_lt,
}
use itcl.Prelude.Bytes.{Bytes}
use itcl.Ensemble.Names.{
  less, greater, is_same, abbreviation_order, name_order, abbreviation-starts, starts, starts_refl,
  eq_of_starts, starts-Precedes,
}
use itcl.Ensemble.Search.{
  cell, Search, found, missing, fault, out_of_fuel, Promise, hit, miss, search-Promise,
}
use itcl.Ensemble.Parts.{
  Part, Ensemble, no_part, part, ambiguous, matches, too_short, top_match, find_from, find_result,
  find_part,
}
use itcl.Ensemble.Invariant.{
  IsWellFormed, name_if, near, needed-near, abbreviation-IsSorted, starts-between,
}
use itcl.Ensemble.Meaning.{
  matches-starts, IsTop, top_match-IsTop, Means, nothing, exactly, uniquely, several,
}

pred_of_eq : (i m : ℕ) → i ≡ m + 1 → i - 1 ≡ m
pred_of_eq i m h = omega arith

module _ (signed : Bool) (e : Ensemble) (w : IsWellFormed signed e) (c : ℕ) (cs : Bytes) where
  open w use {filled, ascending, exact}

  abbrev n : Bytes
  n = c ∷ cs

  abbrev near_before : ℕ → Bool
  near_before i = near n (name_if (ltb 0 i) (cell e.parts (i - 1)))

  abbrev near_after : ℕ → Bool
  near_after i = near n (name_if (ltb (i + 1) e.num_parts) (cell e.parts (i + 1)))

  too_short-near :
      (i : ℕ) (p : Part)
      → i < e.num_parts
      → cell e.parts i ≡ some p
      → starts n p.name ≡ true
      → too_short n (cell e.parts i)
        ≡ (ltb (length n) (length p.name) && (near_before i || near_after i))
  too_short-near i p u at h =
      ap (too_short n) at ∙ (ap (ltb (length n)) (exact i p u at) ∙ needed-near c cs _ p.name _ h)

  near_before-at :
      (m i : ℕ) (p : Part) → i ≡ m + 1 → cell e.parts m ≡ some p → near_before i ≡ starts n p.name
  near_before-at m i p s at =
      ap (λ b. near n (name_if b (cell e.parts (i - 1)))) (ltb_of_lt 0 i (omega arith))
      ∙ (ap (λ k. near n (name_if true (cell e.parts k))) (pred_of_eq i m s)
          ∙ ap (λ o. near n (name_if true o)) at)

  near_after-at :
      (i : ℕ) (p : Part)
      → i + 1 < e.num_parts
      → cell e.parts (i + 1) ≡ some p
      → near_after i ≡ starts n p.name
  near_after-at i p u at =
      ap (λ b. near n (name_if b (cell e.parts (i + 1)))) (ltb_of_lt (i + 1) e.num_parts u)
      ∙ ap (λ o. near n (name_if true o)) at

  -- What stands between two matches, or is one of them, matches.
  starts-within :
      (i j k : ℕ) (p q r : Part)
      → i ≤ j
      → j ≤ k
      → k < e.num_parts
      → cell e.parts i ≡ some p
      → cell e.parts j ≡ some q
      → cell e.parts k ≡ some r
      → starts n p.name ≡ true
      → starts n r.name ≡ true
      → starts n q.name ≡ true
  starts-within i j k p q r a b u x y z h h' = elim (compare-cases i j) [
    | inl s ↦ elim (compare-cases j k) [
      | inl t ↦ starts-between signed e w c cs i j k p q r s t u x y z h h'
      | inr (inl t) ↦ cc t
      | inr (inr t) ↦ absurd (omega arith)
    ]
    | inr (inl s) ↦ cc s
    | inr (inr s) ↦ absurd (omega arith)
  ]

  -- A match whose neighbours do not match is the only one.
  alone :
      (i j : ℕ) (p q : Part)
      → i < e.num_parts
      → j < e.num_parts
      → cell e.parts i ≡ some p
      → cell e.parts j ≡ some q
      → starts n p.name ≡ true
      → starts n q.name ≡ true
      → (near_before i || near_after i) ≡ false
      → j ≡ i
  alone i j p q u v x y h h' b = elim (compare-cases j i) [
    | inl s ↦
        let (r, at) = filled (i - 1) (omega arith) in
        absurd (
          ground (
            arith,
            b,
            near_before-at (i - 1) i r (omega arith) at,
            starts-within j (i - 1) i q r p (omega arith) (omega arith) u y at x h' h,
          ))
    | inr (inl s) ↦ s
    | inr (inr s) ↦
        let (r, at) = filled (i + 1) (omega arith) in
        absurd (
          ground (
            arith,
            b,
            near_after-at i r (omega arith) at,
            starts-within i (i + 1) j p r q (omega arith) (omega arith) v x at y h h',
          ))
  ]

  part-Means :
      (i : ℕ) (p : Part)
      → i < e.num_parts
      → cell e.parts i ≡ some p
      → starts n p.name ≡ true
      → too_short n (cell e.parts i) ≡ false
      → Means e n (part i)
  part-Means i p u x h b =
      let near_b = sym (too_short-near i p u x h) ∙ b in
      elim (Bool-cases (ltb (length n) (length p.name))) [
        | inl l ↦
            uniquely i p u x h
              (λ j q v y h'. alone i j p q u v x y h h' (ground (arith, near_b, l)))
        | inr l ↦ exactly i p u x (eq_of_starts n p.name h (ground (arith, l)))
      ]

  -- The part before the top-most match does not match.
  top-before : (pos t : ℕ) → IsTop n e.parts pos t → t < e.num_parts → near_before t ≡ false
  top-before pos t k u = elim (compare-cases 0 t) [
    | inl s ↦
        let (r, at) = filled (t - 1) (omega arith) in
        near_before-at (t - 1) t r (omega arith) at
        ∙ (sym (ap (matches n) at ∙ matches-starts n r) ∙ k.first (t - 1) (omega arith))
    | inr (inl s) ↦ ap (λ i. near_before i) (sym s)
    | inr (inr s) ↦ absurd (omega arith)
  ]

  top-exact :
      (pos t k : ℕ) (p r : Part)
      → IsTop n e.parts pos t
      → t < e.num_parts
      → cell e.parts t ≡ some p
      → starts n p.name ≡ true
      → ltb (length n) (length p.name) ≡ true
      → k < e.num_parts
      → cell e.parts k ≡ some r
      → n ≢ r.name
  top-exact pos t k p r top u x h l v y q = elim (compare-cases k t) [
    | inl s ↦
        let (z, at) = filled (t - 1) (omega arith) in
        ground (
          arith,
          starts-within k (t - 1) t r z p (omega arith) (omega arith) u y at x
              (ap (starts n) (sym q) ∙ starts_refl n) h,
          top.first (t - 1) (omega arith),
          matches-starts n z,
          ap (matches n) at,
        )
    | inr (inl s) ↦
        let same_name : p.name ≡ r.name = cc s in ground (arith, l, ap length (q ∙ sym same_name))
    | inr (inr s) ↦
        starts-Precedes signed c cs p.name h
          (ap (name_order signed p.name) q ∙ ascending t k p r s v x y)
  ]

  ambiguous-Means :
      (pos t : ℕ) (p : Part) (is : List ℕ)
      → IsTop n e.parts pos t
      → t < e.num_parts
      → cell e.parts t ≡ some p
      → starts n p.name ≡ true
      → too_short n (cell e.parts t) ≡ true
      → Means e n (ambiguous is)
  ambiguous-Means pos t p is top u x h b =
      let near_b = sym (too_short-near t p u x h) ∙ b in
      let after : near_after t ≡ true = ground (arith, near_b, top-before pos t top u) in
      elim (Bool-cases (ltb (t + 1) e.num_parts)) [
        | inl l ↦
            let (q, y) = filled (t + 1) (ground (arith, l)) in
            several t (t + 1) p q is (omega arith) (ground (arith, l)) x y h
              (sym (near_after-at t q (ground (arith, l)) y) ∙ after)
              (λ k r v z. top-exact pos t k p r top u x h (ground (arith, near_b)) v z)
        | inr l ↦ absurd (cc (l, after))
      ]

  find_from-Means :
      (i : ℕ) (p : Part)
      → i < e.num_parts
      → cell e.parts i ≡ some p
      → starts n p.name ≡ true
      → Means e n (find_from e n i)
  unfolding find_from
  find_from-Means i p u x h = elim (Bool-cases (too_short n (cell e.parts i))) [
    | inr b ↦ rw (b, b) (part-Means i p u x h b)
    | inl b ↦
        let t = top_match n e.parts i in
        let k = top_match-IsTop n e.parts i (ap (matches n) x ∙ (matches-starts n p ∙ h)) in
        let bound : t < e.num_parts = omega (arith, k.bound) in
        let (q, y) = filled t bound in
        let starts_at = sym (ap (matches n) y ∙ matches-starts n q) ∙ k.at_top in
        elim (Bool-cases (too_short n (cell e.parts t))) [
          | inl b' ↦ rw (b, b') (ambiguous-Means i t q _ k bound y starts_at b')
          | inr b' ↦ rw (b, b') (part-Means t q bound y starts_at b')
        ]
  ]

  missing-Means :
      (k : ℕ)
      → ((i : ℕ) (p : Part)
          → i < k
          → cell e.parts i ≡ some p
          → abbreviation_order signed n p.name ≡ greater)
      → ((i : ℕ) (p : Part)
          → k ≤ i
          → i < e.num_parts
          → cell e.parts i ≡ some p
          → abbreviation_order signed n p.name ≡ less)
      → Means e n no_part
  missing-Means k below above = nothing (λ i p u x. elim (Bool-cases (ltb i k)) [
    | inl b ↦
        ground (arith, abbreviation-starts signed c cs p.name, below i p (ground (arith, b)) x)
    | inr b ↦
        ground (arith, abbreviation-starts signed c cs p.name, above i p (ground (arith, b)) u x)
  ])

  result-Means :
      (r : Search)
      → Promise (λ p. abbreviation_order signed n p.name) e.parts e.num_parts r
      → Means e n (find_result e n r)
  unfolding find_result
  result-Means (found i) (hit i' p u x h) =
      find_from-Means i p u x (abbreviation-starts signed c cs p.name ∙ ap is_same h)
  result-Means (missing k) (miss k' b below above) = missing-Means k below above
  result-Means fault p = elim p [ ]
  result-Means out_of_fuel p = elim p [ ]

  -- A name with at least one character, looked up in a well-formed list: FindEnsemblePart returns a
  -- part if it has that name or is the only one that the name abbreviates, it returns no part if
  -- there is none that the name abbreviates, and it reports an ambiguity if the name abbreviates
  -- several parts and is the name of none; no other result occurs.
  pub find_part-Means : Means e n (find_part signed e n)
  unfolding find_part
  find_part-Means = result-Means _ (
      search-Promise (λ p. abbreviation_order signed n p.name) e.parts e.num_parts
        (abbreviation-IsSorted signed e w n) (e.num_parts + 1) 0 e.num_parts (omega arith)
        (omega arith) (omega arith) (λ i p u x. absurd (omega arith))
        (λ i p u v x. absurd (omega arith)))
