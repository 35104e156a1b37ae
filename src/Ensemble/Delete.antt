-- ===== src/Ensemble/Delete.antt =====
-- The removal of a part in DeleteEnsemblePart (generic/itclEnsemble.c).
use itcl.Prelude.{
  ℕ, zero, suc, ◌+◌, ◌-◌, ◌≡◌, ◌≢◌, refl, ap, ◌∙◌, sym, ◌<◌, ◌≤◌, Bool, List, Option, some, ltb,
  length, set, arith, ◌⊎◌, inl, inr, Bool-cases, ◌>>=◌, compare-cases,
}
use mathlib.Core.Path.{subst}
use itcl.Prelude.Bytes.{Bytes}
use itcl.Ensemble.Names.{Precedes, name_order, name_order-ne, eq_of_name_order, less, greater}
use itcl.Ensemble.Search.{
  cell, Search, found, missing, fault, out_of_fuel, Promise, hit, miss, search-Promise,
}
use itcl.Ensemble.Parts.{Part, Ensemble, shift_down, remove_at, delete_part, find_part_index}
use itcl.Ensemble.Invariant.{IsWellFormed, name_order-IsSorted}
use itcl.Ensemble.Arrays.{put-IsPut, HasRoom}

-- The cells after `parts[i] = parts[i+1]` for `i` from `pos` up to `pos + k - 1`.
record IsMovedDown (k pos : ℕ) (cells cells' : List (Option Part)) : Type 0 where
  size : length cells' ≡ length cells
  below : (j : ℕ) → j < pos → cell cells' j ≡ cell cells j
  moved : (j : ℕ) → pos ≤ j → j < pos + k → cell cells' j ≡ cell cells (j + 1)
  above : (j : ℕ) → pos + k ≤ j → cell cells' j ≡ cell cells j

at_pos : (cells : List (Option Part)) (j pos : ℕ) → pos ≡ j → cell cells pos ≡ cell cells j
at_pos cells j pos e = ap (cell cells) e

shift_down-IsMovedDown :
    (k pos : ℕ) (cells : List (Option Part))
    → pos + k < length cells
    → (cells' : List (Option Part)) × (shift_down k pos cells ≡ some cells')
      × IsMovedDown k pos cells cells'
unfolding shift_down
shift_down-IsMovedDown zero pos cells h = (
  cells,
  refl,
  record {
    size = refl;
    below = λ j u. refl;
    moved = λ j u v. absurd (omega arith);
    above = λ j u. refl;
  },
)
shift_down-IsMovedDown (suc k) pos cells h =
    let (e, w) = put-IsPut pos (cell cells (pos + 1)) cells (omega arith) in
    let (cells', r, s) =
      shift_down-IsMovedDown k (pos + 1) (set cells pos (cell cells (pos + 1)))
        (omega (arith, w.size)) in
    (
      cells',
      ap (λ o. o >>= shift_down k (pos + 1)) e ∙ r,
      record {
        size = s.size ∙ w.size;
        below = λ j u. s.below j (omega arith) ∙ w.elsewhere j (λ q. absurd (omega arith));
        moved = λ j u v. elim (compare-cases j pos) [
          | inl t ↦ absurd (omega arith)
          | inr (inl t) ↦
              s.below j (omega arith)
              ∙ (at_pos _ pos j t ∙ (w.at_index ∙ ap (λ i. cell cells (i + 1)) (sym t)))
          | inr (inr t) ↦
              s.moved j (omega arith) (omega arith)
              ∙ w.elsewhere (j + 1) (λ q. absurd (omega arith))
        ];
        above = λ j u. s.above j (omega arith) ∙ w.elsewhere j (λ q. absurd (omega arith));
      },
    )

-- What DeleteEnsemblePart does with the list.
pub data Deletes (signed : Bool) (e : Ensemble) (name : Bytes) : Option Ensemble → Type 0 where
  removed :
      (pos : ℕ) (p : Part) (e' : Ensemble)
      → pos < e.num_parts
      → cell e.parts pos ≡ some p
      → name ≡ p.name
      → e'.num_parts + 1 ≡ e.num_parts
      → ((j : ℕ) → j < pos → cell e'.parts j ≡ cell e.parts j)
      → ((j : ℕ) → pos ≤ j → j < e'.num_parts → cell e'.parts j ≡ cell e.parts (j + 1))
      → ((i j : ℕ) (q r : Part)
          → i < j
          → j < e'.num_parts
          → cell e'.parts i ≡ some q
          → cell e'.parts j ≡ some r
          → Precedes signed q.name r.name)
      → Deletes signed e name (some e')
  absent :
      ((i : ℕ) (p : Part) → i < e.num_parts → cell e.parts i ≡ some p → name ≢ p.name)
      → Deletes signed e name (some e)

-- Where a part was that is at an index after the removal.
record Old (e e' : Ensemble) (pos j : ℕ) : Type 0 where
  index : ℕ
  bound : index < e.num_parts
  same_cell : cell e'.parts j ≡ cell e.parts index
  side : ((j < pos) × (index ≡ j)) ⊎ ((pos ≤ j) × (index ≡ j + 1))

apart :
    (i j pos o m : ℕ)
    → i < j
    → ((i < pos) × (o ≡ i)) ⊎ ((pos ≤ i) × (o ≡ i + 1))
    → ((j < pos) × (m ≡ j)) ⊎ ((pos ≤ j) × (m ≡ j + 1))
    → o < m
apart i j pos o m l (inl (a, b)) (inl (c, d)) = omega arith
apart i j pos o m l (inl (a, b)) (inr (c, d)) = omega arith
apart i j pos o m l (inr (a, b)) (inl (c, d)) = omega arith
apart i j pos o m l (inr (a, b)) (inr (c, d)) = omega arith

module _ (signed : Bool) (e : Ensemble) (w : IsWellFormed signed e) (h : HasRoom e)
    (name : Bytes) where
  remove-Deletes :
      (pos : ℕ) (p : Part)
      → pos < e.num_parts
      → cell e.parts pos ≡ some p
      → name ≡ p.name
      → Deletes signed e name (remove_at e (found pos))
  unfolding remove_at
  remove-Deletes pos p u x q =
      let (cells, r, s) =
        shift_down-IsMovedDown (e.num_parts - 1 - pos) pos e.parts
          (omega (arith, h.array, h.fits)) in
      let e' : Ensemble = record e { parts = cells; num_parts = e.num_parts - 1 } in
      let old : (j : ℕ) → j < e.num_parts - 1 → Old e e' pos j = λ j v.
        elim (Bool-cases (ltb j pos)) [
          | inl b ↦ record {
            index = j;
            bound = omega arith;
            same_cell = s.below j (ground (arith, b));
            side = inl (ground (arith, b), refl);
          }
          | inr b ↦ record {
            index = j + 1;
            bound = omega arith;
            same_cell = s.moved j (ground (arith, b)) (ground (arith, b, u, v));
            side = inr (ground (arith, b), refl);
          }
        ] in
      subst (Deletes signed e name)
        (sym (ap (λ o. o >>= (λ c. some (record e { parts = c; num_parts = e.num_parts - 1 }))) r))
        (removed pos p e' u x q (omega arith) s.below (λ j a b. s.moved j a (omega arith))
          (λ i j a b l v y z.
            let o = old i (omega arith) in
            let m = old j v in
            w.ascending o.index m.index a b (apart i j pos o.index m.index l o.side m.side) m.bound
              (sym o.same_cell ∙ y) (sym m.same_cell ∙ z)))

  result-Deletes :
      (r : Search)
      → Promise (λ p. name_order signed name p.name) e.parts e.num_parts r
      → Deletes signed e name (remove_at e r)
  unfolding remove_at
  result-Deletes (found i) (hit i' p u x q) =
      remove-Deletes i p u x (eq_of_name_order signed name p.name q)
  result-Deletes (missing k) (miss k' u below above) = absent (λ i p l x.
      elim (Bool-cases (ltb i k)) [
        | inl b ↦
            name_order-ne signed name p.name greater (below i p (ground (arith, b)) x) (λ q. cc q)
        | inr b ↦
            name_order-ne signed name p.name less (above i p (ground (arith, b)) l x) (λ q. cc q)
      ])
  result-Deletes fault p = elim p [ ]
  result-Deletes out_of_fuel p = elim p [ ]

  -- In a well-formed list, with an array of maxParts cells, at least one, that holds the parts, the
  -- removal of DeleteEnsemblePart takes out the part with the name, if there is one, and moves the later ones down, without a fault; the list stays in order, and each part left
  -- keeps its minChars, also one that would now need fewer characters. Without such a part the list
  -- stays as it is.
  pub delete_part-Deletes : Deletes signed e name (delete_part signed e name)
  unfolding delete_part find_part_index
  delete_part-Deletes = result-Deletes _ (
      search-Promise (λ p. name_order signed name p.name) e.parts e.num_parts
        (name_order-IsSorted signed e w name) (e.num_parts + 1) 0 e.num_parts (omega arith)
        (omega arith) (omega arith) (λ i p u x. absurd (omega arith))
        (λ i p u v x. absurd (omega arith)))
