-- ===== src/Ensemble/Insert.antt =====
-- The new part of CreateEnsemblePart (generic/itclEnsemble.c) in the array, before ComputeMinChars.
use itcl.Prelude.{
  ℕ, ◌+◌, ◌-◌, ◌≡◌, ◌≢◌, refl, ap, ◌∙◌, sym, ◌<◌, ◌≤◌, Bool, List, Option, some, set, arith, ◌⊎◌,
  inl, inr, Bool-cases, compare-cases, ◌==◌, ==_iff,
}
use itcl.Prelude.Bytes.{Bytes}
use itcl.Ensemble.Names.{Precedes, name_order}
use itcl.Ensemble.Search.{cell}
use itcl.Ensemble.Parts.{Part, Ensemble, put, make_room, shift_up}
use itcl.Ensemble.Invariant.{IsWellFormed}
use itcl.Ensemble.Arrays.{put-IsPut, shift_up-IsShifted, HasRoom, make_room-IsGrown}
use itcl.Ensemble.MinChars.{part_eq, IsFilled}

abbrev pub new_part : Bytes → Part
new_part name = record { name = name; min_chars = 0 }

-- The parts of `e` with a new one at a position.
pub record IsInserted (name : Bytes) (pos : ℕ) (e e' : Ensemble) : Type 0 where
  pub num : e'.num_parts ≡ e.num_parts + 1
  pub room : HasRoom e'
  pub low : (j : ℕ) → j < pos → cell e'.parts j ≡ cell e.parts j
  pub new : cell e'.parts pos ≡ some (new_part name)
  pub high : (j : ℕ) → pos ≤ j → j < e.num_parts → cell e'.parts (j + 1) ≡ cell e.parts j

abbrev pub with_parts : Ensemble → List (Option Part) → Ensemble
with_parts e cells = record e { parts = cells; num_parts = e.num_parts + 1 }

-- Both writes succeed.
pub record Inserted (name : Bytes) (pos : ℕ) (e : Ensemble) : Type 0 where
  pub shifted : List (Option Part)
  pub cells : List (Option Part)
  pub shift_ok : shift_up ((make_room e).num_parts - pos) pos (make_room e).parts ≡ some shifted
  pub put_ok : put pos (some (new_part name)) shifted ≡ some cells
  pub inserted : IsInserted name pos e (with_parts (make_room e) cells)

pub make-Inserted :
    (name : Bytes) (pos : ℕ) (e : Ensemble) → HasRoom e → pos ≤ e.num_parts → Inserted name pos e
make-Inserted name pos e h u =
    let g = make_room-IsGrown e h in
    let e₁ = make_room e in
    let (shifted, r, s) =
      shift_up-IsShifted (e₁.num_parts - pos) pos e₁.parts
        (omega (arith, g.num, g.free_cell, g.room.array)) in
    let (q, w) =
      put-IsPut pos (some (new_part name)) shifted
        (omega (arith, g.num, g.free_cell, g.room.array, s.size)) in
    record {
      shifted = shifted;
      cells = set shifted pos (some (new_part name));
      shift_ok = r;
      put_ok = q;
      inserted = record {
        num = omega (arith, g.num);
        room = record {
          array = w.size ∙ (s.size ∙ g.room.array);
          fits = omega (arith, g.free_cell);
          some_room = g.room.some_room;
        };
        low = λ j l.
            w.elsewhere j (λ q. absurd (omega arith))
            ∙ (s.below j (omega arith) ∙ g.kept j (omega arith));
        new = w.at_index;
        high = λ j a b.
            w.elsewhere (j + 1) (λ q. absurd (omega arith))
            ∙ (s.moved j a (omega (arith, g.num)) ∙ g.kept j b);
      };
    }

same_name : (p q : Part) → some p ≡ some q → p.name ≡ q.name
same_name p q h = ap (λ r. r.name) (part_eq p q h)

suc_pred : (j pos : ℕ) → pos < j → j ≡ j - 1 + 1
suc_pred j pos l = omega arith

-- Where a position of the old list is that was at `o`.
abbrev Side : ℕ → ℕ → ℕ → Type 0
Side pos j o = ((j < pos) × (o ≡ j)) ⊎ ((pos < j) × (j ≡ o + 1))

between : (i j pos o m : ℕ) → i < j → Side pos i o → Side pos j m → o < m
between i j pos o m l (inl (a, b)) (inl (c, d)) = omega arith
between i j pos o m l (inl (a, b)) (inr (c, d)) = omega arith
between i j pos o m l (inr (a, b)) (inl (c, d)) = omega arith
between i j pos o m l (inr (a, b)) (inr (c, d)) = omega arith

at_low : (j pos o : ℕ) → j < pos → Side pos j o → o < pos
at_low j pos o l (inl (a, b)) = omega arith
at_low j pos o l (inr (a, b)) = omega arith

at_high : (j pos o : ℕ) → pos < j → Side pos j o → pos ≤ o
at_high j pos o l (inl (a, b)) = omega arith
at_high j pos o l (inr (a, b)) = omega arith

module _ (name : Bytes) (pos : ℕ) (e e' : Ensemble) (h : IsInserted name pos e e')
    (fits : pos ≤ e.num_parts) where
  -- Where an old part was.
  pub record Old (j : ℕ) : Type 0 where
    pub index : ℕ
    pub bound : index < e.num_parts
    pub same : cell e'.parts j ≡ cell e.parts index
    pub side : Side pos j index

  pub old : (j : ℕ) → j < e.num_parts + 1 → j ≢ pos → Old j
  old j u n = elim (compare-cases j pos) [
    | inl l ↦ record { index = j; bound = omega arith; same = h.low j l; side = inl (l, refl) }
    | inr (inl q) ↦ absurd (n q)
    | inr (inr l) ↦ record {
      index = j - 1;
      bound = omega arith;
      same = ap (cell e'.parts) (suc_pred j pos l) ∙ h.high (j - 1) (omega arith) (omega arith);
      side = inr (l, suc_pred j pos l);
    }
  ]

  pub inserted-IsFilled : IsFilled e → IsFilled e'
  inserted-IsFilled k = record {
    filled = λ j u. elim (Bool-cases (j == pos)) [
      | inl b ↦ (new_part name, ap (cell e'.parts) ((==_iff j pos).0 b) ∙ h.new)
      | inr b ↦
          let o = old j (omega (arith, h.num)) (λ q. ground (arith, b, q)) in
          let (p, at) = k.filled o.index o.bound in (p, o.same ∙ at)
    ];
    inside = omega (arith, h.room.array, h.room.fits);
  }

  module _ (signed : Bool) (w : IsWellFormed signed e)
      (before : (i : ℕ) (p : Part)
        → i < pos
        → cell e.parts i ≡ some p
        → Precedes signed p.name name)
      (behind : (i : ℕ) (p : Part)
        → pos ≤ i
        → i < e.num_parts
        → cell e.parts i ≡ some p
        → Precedes signed name p.name) where
    pub inserted-ascending :
        (i j : ℕ) (p q : Part)
        → i < j
        → j < e'.num_parts
        → cell e'.parts i ≡ some p
        → cell e'.parts j ≡ some q
        → Precedes signed p.name q.name
    inserted-ascending i j p q l u x y = elim (Bool-cases (i == pos)) [
      | inl b ↦
          let o = old j (omega (arith, h.num)) (λ q. ground (arith, b, q, l)) in
          let at_new : cell e'.parts i ≡ some (new_part name) =
            ap (cell e'.parts) ((==_iff i pos).0 b) ∙ h.new in
          ap (λ n. name_order signed n q.name) (same_name _ _ (sym x ∙ at_new))
          ∙ behind o.index q (at_high j pos _ (ground (arith, b, l)) o.side) o.bound
              (sym o.same ∙ y)
      | inr b ↦ elim (Bool-cases (j == pos)) [
        | inl c ↦
            let o = old i (omega (arith, h.num)) (λ q. ground (arith, b, q)) in
            let at_new : cell e'.parts j ≡ some (new_part name) =
              ap (cell e'.parts) ((==_iff j pos).0 c) ∙ h.new in
            ap (name_order signed p.name) (same_name _ _ (sym y ∙ at_new))
            ∙ before o.index p (at_low i pos _ (ground (arith, c, l)) o.side) (sym o.same ∙ x)
        | inr c ↦
            let o = old i (omega (arith, h.num)) (λ q. ground (arith, b, q)) in
            let m = old j (omega (arith, h.num)) (λ q. ground (arith, c, q)) in
            w.ascending o.index m.index p q (between i j pos o.index m.index l o.side m.side)
              m.bound (sym o.same ∙ x) (sym m.same ∙ y)
      ]
    ]
