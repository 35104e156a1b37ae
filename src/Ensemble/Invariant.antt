-- ===== src/Ensemble/Invariant.antt =====
-- The invariant of the part lists of generic/itclEnsemble.c.
use itcl.Prelude.{
  ℕ, ◌+◌, ◌-◌, ◌≡◌, ◌<◌, Bool, true, false, ◌&&◌, ◌||◌, ◌∷◌, Option, none, some, ltb, if◌then◌else◌,
  length, arith,
}
use itcl.Prelude.Bytes.{Bytes}
use itcl.Ensemble.Names.{
  abbreviation_order, abbreviation-less, abbreviation-greater, abbreviation-starts, name_order,
  name_order-greater, Precedes, Precedes-trans, starts, starts-count_min, count_min,
  count_min-bound,
}
use itcl.Ensemble.Search.{cell, IsSorted}
use itcl.Ensemble.Parts.{Part, Ensemble}

-- The name of a neighbour, if there is one.
abbrev pub name_if : Bool → Option Part → Option Bytes
name_if true (some p) = some p.name
name_if _ _ = none

abbrev against : Bytes → Option Bytes → ℕ
against name none = 1
against name (some q) = count_min name q 1

-- The characters that tell a name from its two neighbours, at most the whole name.
abbrev pub needed : Option Bytes → Bytes → Option Bytes → ℕ
needed prev name next =
    let m =
      (if ltb (against name prev) (against name next)
        then against name next
        else against name prev) in
    if ltb (length name) m then length name else m

-- Parts in strictly ascending order, each with the characters that it needs.
pub record IsWellFormed (signed : Bool) (e : Ensemble) : Type 0 where
  pub filled : (i : ℕ) → i < e.num_parts → (p : Part) × (cell e.parts i ≡ some p)
  pub ascending :
      (i j : ℕ) (p q : Part)
      → i < j
      → j < e.num_parts
      → cell e.parts i ≡ some p
      → cell e.parts j ≡ some q
      → Precedes signed p.name q.name
  pub exact :
      (i : ℕ) (p : Part)
      → i < e.num_parts
      → cell e.parts i ≡ some p
      → p.min_chars
        ≡ needed
            (name_if (ltb 0 i) (cell e.parts (i - 1)))
            p.name
            (name_if (ltb (i + 1) e.num_parts) (cell e.parts (i + 1)))

abbrev pub near : Bytes → Option Bytes → Bool
near n none = false
near n (some q) = starts n q

pub needed-near :
    (c : ℕ) (cs : Bytes) (prev : Option Bytes) (p : Bytes) (next : Option Bytes)
    → starts (c ∷ cs) p ≡ true
    → ltb (length (c ∷ cs)) (needed prev p next)
      ≡ (ltb (length (c ∷ cs)) (length p) && (near (c ∷ cs) prev || near (c ∷ cs) next))
needed-near c cs none p none h = ground (arith, h)
needed-near c cs none p (some r) h =
    ground (arith, starts-count_min (c ∷ cs) p r h, count_min-bound p r 1)
needed-near c cs (some q) p none h =
    ground (arith, starts-count_min (c ∷ cs) p q h, count_min-bound p q 1)
needed-near c cs (some q) p (some r) h =
    ground (arith, starts-count_min (c ∷ cs) p q h, starts-count_min (c ∷ cs) p r h)

module _ (signed : Bool) (e : Ensemble) (w : IsWellFormed signed e) where
  open w use {filled, ascending, exact}

  pub abbreviation-IsSorted :
      (n : Bytes) → IsSorted (λ p. abbreviation_order signed n p.name) e.parts e.num_parts
  abbreviation-IsSorted n = record {
    filled = filled;
    less_later =
        λ i j p q a b u v h. abbreviation-less signed n p.name q.name h (ascending i j p q a b u v);
    greater_earlier = λ i j p q a b u v h.
        abbreviation-greater signed n p.name q.name h (ascending i j p q a b u v);
  }

  pub name_order-IsSorted :
      (n : Bytes) → IsSorted (λ p. name_order signed n p.name) e.parts e.num_parts
  name_order-IsSorted n = record {
    filled = filled;
    less_later =
        λ i j p q a b u v h. Precedes-trans signed n p.name q.name h (ascending i j p q a b u v);
    greater_earlier = λ i j p q a b u v h.
        name_order-greater signed n p.name q.name h (ascending i j p q a b u v);
  }

  -- The matches of an abbreviation stand side by side.
  pub starts-between :
      (c : ℕ) (cs : Bytes) (i j k : ℕ) (p q r : Part)
      → i < j
      → j < k
      → k < e.num_parts
      → cell e.parts i ≡ some p
      → cell e.parts j ≡ some q
      → cell e.parts k ≡ some r
      → starts (c ∷ cs) p.name ≡ true
      → starts (c ∷ cs) r.name ≡ true
      → starts (c ∷ cs) q.name ≡ true
  starts-between c cs i j k p q r a b u x y z h h' = ground (
    arith,
    abbreviation-starts signed c cs p.name,
    abbreviation-starts signed c cs q.name,
    abbreviation-starts signed c cs r.name,
    abbreviation-less signed (c ∷ cs) q.name r.name,
    abbreviation-greater signed (c ∷ cs) p.name q.name,
    ascending i j p q a (omega arith) x y,
    ascending j k q r b u y z,
  )
