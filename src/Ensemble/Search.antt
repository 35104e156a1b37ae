-- ===== src/Ensemble/Search.antt =====
-- The binary search of FindEnsemblePart and FindEnsemblePartIndex (generic/itclEnsemble.c): the loop
-- `while (last >= first)` over the cells, with `hi` for `last + 1`.
use itcl.Prelude.{
  ℕ, zero, suc, ◌+◌, ◌-◌, ◌/◌, ◌≡◌, refl, ap, ◌∙◌, ◌<◌, ◌≤◌, true, false, List, Option, none, some,
  ltb, if◌then◌else◌, get_elem?, arith, ◌⊎◌, inl, inr, Bool-cases, ◌==◌, ==_iff,
}
use itcl.Ensemble.Names.{Order, less, same, greater}

-- `found`: the loop breaks at a position; `missing`: it ends with `first`; `fault`: it reads a cell
-- that was never written, or is not there.
pub data Search : Type 0 where
  found missing : ℕ → Search
  fault out_of_fuel : Search

-- The cell at an index: `none` for a cell out of the array or never written.
unfoldable pub cell {ℓ} : {A : Type ℓ} → List (Option A) → ℕ → Option A
cell cells i = elim (get_elem? cells i) [ none ↦ none | some c ↦ c ]

Order-cases : (o : Order) → (o ≡ less) ⊎ ((o ≡ same) ⊎ (o ≡ greater))
Order-cases less = inl refl
Order-cases same = inr (inl refl)
Order-cases greater = inr (inr refl)

module _ {A : Type 0} (probe : A → Order) (cells : List (Option A)) where
  -- The order of the cell at a position, if it can be read.
  abbrev pub order_of : Option A → Option Order
  order_of none = none
  order_of (some a) = some (probe a)

  unfoldable pub search : ℕ → ℕ → ℕ → Search
  search zero lo hi = out_of_fuel
  search (suc f) lo hi =
      if ltb lo hi
      then elim (order_of (cell cells ((lo + hi - 1) / 2))) [
        | none ↦ fault
        | some same ↦ found ((lo + hi - 1) / 2)
        | some greater ↦ search f ((lo + hi - 1) / 2 + 1) hi
        | some less ↦ search f lo ((lo + hi - 1) / 2)
      ]
      else missing lo

  -- The cells below `n` are written, and along them the order only decreases.
  pub record IsSorted (n : ℕ) : Type 0 where
    pub filled : (i : ℕ) → i < n → (a : A) × (cell cells i ≡ some a)
    pub less_later :
        (i j : ℕ) (a b : A)
        → i < j
        → j < n
        → cell cells i ≡ some a
        → cell cells j ≡ some b
        → probe a ≡ less
        → probe b ≡ less
    pub greater_earlier :
        (i j : ℕ) (a b : A)
        → i < j
        → j < n
        → cell cells i ≡ some a
        → cell cells j ≡ some b
        → probe b ≡ greater
        → probe a ≡ greater

  -- What the search of the first `n` cells promises.
  pub data Promise (n : ℕ) : Search → Type 0 where
    hit : (i : ℕ) (a : A) → i < n → cell cells i ≡ some a → probe a ≡ same → Promise n (found i)
    miss :
        (k : ℕ)
        → k ≤ n
        → ((i : ℕ) (a : A) → i < k → cell cells i ≡ some a → probe a ≡ greater)
        → ((i : ℕ) (a : A) → k ≤ i → i < n → cell cells i ≡ some a → probe a ≡ less)
        → Promise n (missing k)

  search-turn :
      (f lo hi : ℕ) (o : Order)
      → ltb lo hi ≡ true
      → order_of (cell cells ((lo + hi - 1) / 2)) ≡ some o
      → search (suc f) lo hi ≡ elim o [
        | same ↦ found ((lo + hi - 1) / 2)
        | greater ↦ search f ((lo + hi - 1) / 2 + 1) hi
        | less ↦ search f lo ((lo + hi - 1) / 2)
      ]
  unfolding search
  search-turn f lo hi less h e = ground (arith, h, e)
  search-turn f lo hi same h e = ground (arith, h, e)
  search-turn f lo hi greater h e = ground (arith, h, e)

  search-end : (f lo hi : ℕ) → ltb lo hi ≡ false → search (suc f) lo hi ≡ missing lo
  unfolding search
  search-end f lo hi h = ground (arith, h)

  mid-bounds : (lo hi : ℕ) → ltb lo hi ≡ true → (lo ≤ (lo + hi - 1) / 2) × ((lo + hi - 1) / 2 < hi)
  mid-bounds lo hi h = (ground (arith, h), ground (arith, h))

  less-from :
      (n m i : ℕ) (a b : A)
      → IsSorted n
      → m ≤ i
      → i < n
      → cell cells m ≡ some a
      → cell cells i ≡ some b
      → probe a ≡ less
      → probe b ≡ less
  less-from n m i a b k h u at at' e = elim (Bool-cases (m == i)) [
    | inl q ↦ cc ((==_iff m i).0 q)
    | inr q ↦ k.less_later m i a b (ground (arith, q, h)) u at at' e
  ]

  greater-to :
      (n m i : ℕ) (a b : A)
      → IsSorted n
      → i < m + 1
      → m < n
      → cell cells m ≡ some a
      → cell cells i ≡ some b
      → probe a ≡ greater
      → probe b ≡ greater
  greater-to n m i a b k h u at at' e = elim (Bool-cases (m == i)) [
    | inl q ↦ cc ((==_iff m i).0 q)
    | inr q ↦ k.greater_earlier i m b a (ground (arith, q, h)) u at' at e
  ]

  -- The loop ends within `hi - lo` rounds and reads only cells that are written.
  pub search-Promise :
      (n : ℕ)
      → IsSorted n
      → (f lo hi : ℕ) → lo ≤ hi
      → hi ≤ n
      → hi < lo + f
      → ((i : ℕ) (a : A) → i < lo → cell cells i ≡ some a → probe a ≡ greater)
      → ((i : ℕ) (a : A) → hi ≤ i → i < n → cell cells i ≡ some a → probe a ≡ less)
      → Promise n (search f lo hi)
  search-Promise n k zero lo hi b u v below above = absurd (omega arith)
  search-Promise n k (suc f) lo hi b u v below above = elim (Bool-cases (ltb lo hi)) [
    | inr e ↦
        rw (search-end f lo hi e)
          (miss lo (omega arith) below (λ i a p q at. above i a (ground (arith, e, p)) q at))
    | inl e ↦
        let (lb, ub) = mid-bounds lo hi e in
        let (a, at) = k.filled ((lo + hi - 1) / 2) (omega arith) in
        elim (Order-cases (probe a)) [
          | inl o ↦ rw (search-turn f lo hi less e (ap order_of at ∙ ap some o)) (
              search-Promise n k f lo ((lo + hi - 1) / 2) (omega arith) (omega arith) (omega arith)
                below (λ i b p q at'. less-from n _ i a b k p q at at' o))
          | inr (inl o) ↦
              rw (search-turn f lo hi same e (ap order_of at ∙ ap some o))
                (hit ((lo + hi - 1) / 2) a (omega arith) at o)
          | inr (inr o) ↦ rw (search-turn f lo hi greater e (ap order_of at ∙ ap some o)) (
              search-Promise n k f ((lo + hi - 1) / 2 + 1) hi (omega arith) u (omega arith)
                (λ i b p at'. greater-to n _ i a b k p (omega arith) at at' o) above)
        ]
  ]
