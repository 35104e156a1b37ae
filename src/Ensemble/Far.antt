-- ===== src/Ensemble/Far.antt =====
-- The parts of generic/itclEnsemble.c that are no neighbours of a new one need what they needed.
use itcl.Prelude.{
  ℕ, ◌+◌, ◌-◌, ◌≡◌, ◌≢◌, refl, ap, ◌∙◌, sym, ◌<◌, ◌≤◌, Bool, true, false, Option, none, some, ltb,
  arith, inl, inr, Bool-cases, ltb_of_lt, compare-cases,
}
use mathlib.Core.Path.{subst}
use itcl.Prelude.Bytes.{Bytes}
use itcl.Ensemble.Search.{cell}
use itcl.Ensemble.Parts.{Part, Ensemble}
use itcl.Ensemble.Invariant.{IsWellFormed, name_if, needed}
use itcl.Ensemble.MinChars.{Exact}
use itcl.Ensemble.Insert.{IsInserted}

name_if-false : (b : Bool) (o : Option Part) → b ≡ false → name_if b o ≡ none
name_if-false true o e = cc e
name_if-false false none e = refl
name_if-false false (some p) e = refl

needed-eq :
    (a a' : Option Bytes) (n : Bytes) (b b' : Option Bytes)
    → a ≡ a'
    → b ≡ b'
    → needed a n b ≡ needed a' n b'
needed-eq a a' n b b' h k = ap (λ x. needed x n b) h ∙ ap (needed a' n) k

name_if-eq : (b b' : Bool) (o o' : Option Part) → b ≡ b' → o ≡ o' → name_if b o ≡ name_if b' o'
name_if-eq b b' o o' h k = ap (λ x. name_if x o) h ∙ ap (name_if b') k

pred_suc : (m pos : ℕ) → pos < m → m - 1 + 1 ≡ m + 1 - 1
pred_suc m pos l = omega arith

strict : (j pos : ℕ) → j < pos → j + 1 ≢ pos → j + 1 < pos
strict j pos l n = ground (arith, n)

strict_pred : (j pos : ℕ) → pos < j → j ≢ pos + 1 → pos < j - 1
strict_pred j pos l n = ground (arith, n)

pub Exact-eq : (e : Ensemble) (i j : ℕ) → i ≡ j → Exact e i → Exact e j
Exact-eq e i j q x = subst (Exact e) q x

both_true : (i n j m : ℕ) → i < n → j < m → ltb i n ≡ ltb j m
both_true i n j m u v = ltb_of_lt i n u ∙ sym (ltb_of_lt j m v)

module _ (name : Bytes) (pos : ℕ) (e e' : Ensemble) (h : IsInserted name pos e e') (signed : Bool)
    (w : IsWellFormed signed e) where
  -- The parts that are no neighbours of the new one need what they needed.
  low-Exact : (j : ℕ) → j + 1 < pos → pos ≤ e.num_parts → Exact e' j
  low-Exact j l fits p at =
      w.exact j p (omega arith) (sym (h.low j (omega arith)) ∙ at)
      ∙ needed-eq _ _ p.name _ _ (ap (name_if (ltb 0 j)) (sym (h.low (j - 1) (omega arith)))) (
          name_if-eq _ _ _ _ (both_true _ _ _ _ (omega arith) (omega (arith, h.num)))
            (sym (h.low (j + 1) l)))

  high-next :
      (m : ℕ)
      → pos ≤ m
      → name_if (ltb (m + 1) e.num_parts) (cell e.parts (m + 1))
        ≡ name_if (ltb (m + 1 + 1) e'.num_parts) (cell e'.parts (m + 1 + 1))
  high-next m u = elim (Bool-cases (ltb (m + 1) e.num_parts)) [
    | inl b ↦
        name_if-eq _ _ _ _ (b ∙ sym (ltb_of_lt _ _ (ground (arith, b, h.num))))
          (sym (h.high (m + 1) (omega arith) (ground (arith, b))))
    | inr b ↦ name_if-false _ _ b ∙ sym (name_if-false _ _ (ground (arith, b, h.num)))
  ]

  high-Exact : (m : ℕ) → pos < m → m < e.num_parts → Exact e' (m + 1)
  high-Exact m l u p at =
      w.exact m p u (sym (h.high m (omega arith) u) ∙ at)
      ∙ needed-eq _ _ p.name _ _
          (name_if-eq _ _ _ _ (both_true _ _ _ _ (omega arith) (omega arith)) (
            sym (h.high (m - 1) (omega arith) (omega arith))
            ∙ ap (cell e'.parts) (pred_suc m pos l)))
          (high-next m (omega arith))

  pub far-Exact :
      (j : ℕ)
      → pos ≤ e.num_parts
      → j < e.num_parts + 1
      → j ≢ pos
      → j ≢ pos + 1
      → j + 1 ≢ pos
      → Exact e' j
  far-Exact j fits u a b c = elim (compare-cases j pos) [
    | inl l ↦ low-Exact j (strict j pos l c) fits
    | inr (inl q) ↦ absurd (a q)
    | inr (inr l) ↦
        Exact-eq e' (j - 1 + 1) j (omega arith)
          (high-Exact (j - 1) (strict_pred j pos l b) (omega arith))
  ]
