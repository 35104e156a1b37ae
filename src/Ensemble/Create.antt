-- ===== src/Ensemble/Create.antt =====
-- CreateEnsemblePart of generic/itclEnsemble.c keeps the invariant of the part list.
use itcl.Prelude.{
  ℕ, ◌+◌, ◌≡◌, ◌≢◌, ap, ◌∙◌, sym, ◌<◌, ◌≤◌, Bool, Option, none, some, ltb, arith, inl, inr,
  Bool-cases, ◌>>=◌,
}
use mathlib.Core.Path.{subst}
use itcl.Prelude.Bytes.{Bytes}
use itcl.Ensemble.Names.{
  Precedes, name_order, name_order-ne, eq_of_name_order, less, greater, Precedes-flip,
}
use itcl.Ensemble.Search.{
  cell, Search, found, missing, fault, out_of_fuel, Promise, hit, miss, search-Promise,
}
use itcl.Ensemble.Parts.{
  compute_three, Part, Ensemble, put, make_room, insert_part, Created, created, exists_already,
  created_at, create_result, create_part, find_part_index,
}
use itcl.Ensemble.Invariant.{IsWellFormed, name_order-IsSorted}
use itcl.Ensemble.Arrays.{HasRoom}
use itcl.Ensemble.MinChars.{name_of, of_name, IsFilled, IsFilled-SameNames}
use itcl.Ensemble.Insert.{
  new_part, Inserted, make-Inserted, with_parts, inserted-IsFilled, inserted-ascending,
}
use itcl.Ensemble.Far.{far-Exact}
use itcl.Ensemble.Recompute.{IsRecomputed, compute_three-IsRecomputed}

or_name : Bytes → Option Bytes → Bytes
or_name a none = a
or_name a (some b) = b

name-of_name :
    (o : Option Part) (p : Part) (a : Bytes) → name_of o ≡ some a → o ≡ some p → p.name ≡ a
unfolding or_name
name-of_name o p a h k = ap (or_name a) (sym (ap name_of k) ∙ h)

insert_part-three :
    (name : Bytes) (pos : ℕ) (e : Ensemble) (k : Inserted name pos e)
    → insert_part name pos e ≡ compute_three pos (with_parts (make_room e) k.cells)
unfolding insert_part compute_three
insert_part-three name pos e k =
    ap
      (λ o. o >>= (λ c.
        put pos (some (new_part name)) c >>= (λ d. compute_three pos (with_parts (make_room e) d))))
      k.shift_ok
    ∙ ap (λ o. o >>= (λ d. compute_three pos (with_parts (make_room e) d))) k.put_ok

-- What CreateEnsemblePart promises on each of its results.
pub data Creates (signed : Bool) (e : Ensemble) (name : Bytes) : Created → Type 0 where
  there :
      (i : ℕ) (p : Part)
      → i < e.num_parts
      → cell e.parts i ≡ some p
      → name ≡ p.name
      → Creates signed e name exists_already
  new :
      (pos : ℕ) (e' : Ensemble)
      → pos ≤ e.num_parts
      → ((i : ℕ) (p : Part) → i < e.num_parts → cell e.parts i ≡ some p → name ≢ p.name)
      → IsWellFormed signed e'
      → HasRoom e'
      → e'.num_parts ≡ e.num_parts + 1
      → ((j : ℕ) → j < pos → name_of (cell e'.parts j) ≡ name_of (cell e.parts j))
      → name_of (cell e'.parts pos) ≡ some name
      → ((j : ℕ)
          → pos ≤ j
          → j < e.num_parts
          → name_of (cell e'.parts (j + 1)) ≡ name_of (cell e.parts j))
      → Creates signed e name (created pos e')

module _ (signed : Bool) (e : Ensemble) (w : IsWellFormed signed e) (h : HasRoom e)
    (name : Bytes) where
  well-IsFilled : IsFilled e
  well-IsFilled = record { filled = w.filled; inside = omega (arith, h.array, h.fits) }

  recomputed-IsWellFormed :
      (pos : ℕ) (e₁ e₂ : Ensemble)
      → ((i j : ℕ) (p q : Part)
          → i < j
          → j < e₁.num_parts
          → cell e₁.parts i ≡ some p
          → cell e₁.parts j ≡ some q
          → Precedes signed p.name q.name)
      → IsFilled e₁
      → IsRecomputed pos e₁ e₂
      → IsWellFormed signed e₂
  recomputed-IsWellFormed pos e₁ e₂ up k r = record {
    filled = (IsFilled-SameNames e₁ e₂ k r.same_names).filled;
    ascending = λ i j p q l u x y.
        let (p₁, x₁) =
          of_name (cell e₁.parts i) p.name (sym (r.same_names.names i) ∙ ap name_of x) in
        let (q₁, y₁) =
          of_name (cell e₁.parts j) q.name (sym (r.same_names.names j) ∙ ap name_of y) in
        let p_same = name-of_name _ p₁ p.name (sym (r.same_names.names i) ∙ ap name_of x) x₁ in
        let q_same = name-of_name _ q₁ q.name (sym (r.same_names.names j) ∙ ap name_of y) y₁ in
        ap (λ a. name_order signed a q.name) (sym p_same)
        ∙ (ap (name_order signed p₁.name) (sym q_same)
            ∙ up i j p₁ q₁ l (omega (arith, r.same_names.num)) x₁ y₁);
    exact = λ j p u x. r.exact j (omega (arith, r.same_names.num)) p x;
  }

  insert-Creates :
      (pos : ℕ)
      → pos ≤ e.num_parts
      → ((i : ℕ) (p : Part) → i < pos → cell e.parts i ≡ some p → Precedes signed p.name name)
      → ((i : ℕ) (p : Part)
          → pos ≤ i
          → i < e.num_parts
          → cell e.parts i ≡ some p
          → Precedes signed name p.name)
      → ((i : ℕ) (p : Part) → i < e.num_parts → cell e.parts i ≡ some p → name ≢ p.name)
      → Creates signed e name (created_at pos (insert_part name pos e))
  insert-Creates pos u before behind absent =
      let k = make-Inserted name pos e h u in
      let e₁ = with_parts (make_room e) k.cells in
      let filled = inserted-IsFilled name pos e e₁ k.inserted u well-IsFilled in
      let (e₂, r, c) =
        compute_three-IsRecomputed pos e₁ filled (λ j v.
          far-Exact name pos e e₁ k.inserted signed w j u (omega (arith, k.inserted.num))) in
      let s = c.same_names in
      subst (λ o. Creates signed e name (created_at pos o))
        (sym (insert_part-three name pos e k ∙ r))
        (new pos e₂ u absent
          (recomputed-IsWellFormed pos e₁ e₂
            (inserted-ascending name pos e e₁ k.inserted u signed w before behind) filled c)
          (record {
            array = omega (arith, s.size, s.max, k.inserted.room.array);
            fits = omega (arith, s.num, s.max, k.inserted.room.fits);
            some_room = omega (arith, s.max, k.inserted.room.some_room);
          })
          (s.num ∙ k.inserted.num) (λ j l. s.names j ∙ ap name_of (k.inserted.low j l))
          (s.names pos ∙ ap name_of k.inserted.new)
          (λ j a b. s.names (j + 1) ∙ ap name_of (k.inserted.high j a b)))

  missing-Creates :
      (k : ℕ)
      → k ≤ e.num_parts
      → ((i : ℕ) (p : Part)
          → i < k
          → cell e.parts i ≡ some p
          → name_order signed name p.name ≡ greater)
      → ((i : ℕ) (p : Part)
          → k ≤ i
          → i < e.num_parts
          → cell e.parts i ≡ some p
          → name_order signed name p.name ≡ less)
      → Creates signed e name (created_at k (insert_part name k e))
  missing-Creates k u below above =
      insert-Creates k u (λ i p l x. Precedes-flip signed name p.name (below i p l x)) above
        (λ i p l x. elim (Bool-cases (ltb i k)) [
          | inl b ↦
              name_order-ne signed name p.name greater (below i p (ground (arith, b)) x) (λ q. cc q)
          | inr b ↦
              name_order-ne signed name p.name less (above i p (ground (arith, b)) l x) (λ q. cc q)
        ])

  result-Creates :
      (r : Search)
      → Promise (λ p. name_order signed name p.name) e.parts e.num_parts r
      → Creates signed e name (create_result name e r)
  unfolding create_result
  result-Creates (found i) (hit i' p u x q) = there i p u x (eq_of_name_order signed name p.name q)
  result-Creates (missing k) (miss k' u below above) = missing-Creates k u below above
  result-Creates fault p = elim p [ ]
  result-Creates out_of_fuel p = elim p [ ]

  -- In a well-formed list, with an array of maxParts cells, at least one, that holds the parts,
  -- CreateEnsemblePart returns an error exactly if a part has the name already; otherwise it puts one
  -- part with the name between the old ones, and the list is well-formed again, with such an array: in
  -- order, and each part with the characters that it needs. It never writes out of the array.
  pub create_part-Creates : Creates signed e name (create_part signed e name)
  unfolding create_part find_part_index
  create_part-Creates = result-Creates _ (
      search-Promise (λ p. name_order signed name p.name) e.parts e.num_parts
        (name_order-IsSorted signed e w name) (e.num_parts + 1) 0 e.num_parts (omega arith)
        (omega arith) (omega arith) (λ i p u x. absurd (omega arith))
        (λ i p u v x. absurd (omega arith)))
