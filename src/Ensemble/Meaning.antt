-- ===== src/Ensemble/Meaning.antt =====
-- What the results of FindEnsemblePart (generic/itclEnsemble.c) mean, and where it goes back to.
use itcl.Prelude.{
  ℕ, zero, suc, ◌+◌, ◌≡◌, ◌≢◌, ap, ◌∙◌, sym, ◌<◌, ◌≤◌, true, false, List, Option, some, arith, inl,
  inr, Bool-cases,
}
use itcl.Prelude.Bytes.{Bytes}
use itcl.Ensemble.Names.{starts, strncmp-starts}
use itcl.Ensemble.Search.{cell}
use itcl.Ensemble.Parts.{Part, Ensemble, Found, no_part, part, ambiguous, matches, top_match}

pub matches-starts : (n : Bytes) (p : Part) → matches n (some p) ≡ starts n p.name
matches-starts n p = sym (strncmp-starts n p.name)

-- Where the loop that goes back stops.
pub record IsTop (n : Bytes) (cells : List (Option Part)) (pos t : ℕ) : Type 0 where
  pub bound : t ≤ pos
  pub at_top : matches n (cell cells t) ≡ true
  pub first : (m : ℕ) → t ≡ m + 1 → matches n (cell cells m) ≡ false

pub top_match-IsTop :
    (n : Bytes) (cells : List (Option Part)) (pos : ℕ)
    → matches n (cell cells pos) ≡ true
    → IsTop n cells pos (top_match n cells pos)
unfolding top_match
top_match-IsTop n cells zero h = record {
  bound = omega arith;
  at_top = h;
  first = λ m q. absurd (omega arith);
}
top_match-IsTop n cells (suc i) h = elim (Bool-cases (matches n (cell cells i))) [
  | inl e ↦
      let k = top_match-IsTop n cells i e in
      rw e (record { bound = ground (arith, k.bound); at_top = k.at_top; first = k.first })
  | inr e ↦ rw e (record {
    bound = omega arith;
    at_top = h;
    first = λ m q. ap (λ k. matches n (cell cells k)) (omega arith) ∙ e;
  })
]

-- What each result of the look-up of a name says about the parts.
pub data Means (e : Ensemble) (n : Bytes) : Found → Type 0 where
  nothing :
      ((i : ℕ) (p : Part) → i < e.num_parts → cell e.parts i ≡ some p → starts n p.name ≡ false)
      → Means e n no_part
  exactly :
      (i : ℕ) (p : Part)
      → i < e.num_parts
      → cell e.parts i ≡ some p
      → n ≡ p.name
      → Means e n (part i)
  uniquely :
      (i : ℕ) (p : Part)
      → i < e.num_parts
      → cell e.parts i ≡ some p
      → starts n p.name ≡ true
      → ((j : ℕ) (q : Part)
          → j < e.num_parts
          → cell e.parts j ≡ some q
          → starts n q.name ≡ true
          → j ≡ i)
      → Means e n (part i)
  several :
      (i j : ℕ) (p q : Part) (is : List ℕ)
      → i < j
      → j < e.num_parts
      → cell e.parts i ≡ some p
      → cell e.parts j ≡ some q
      → starts n p.name ≡ true
      → starts n q.name ≡ true
      → ((k : ℕ) (r : Part) → k < e.num_parts → cell e.parts k ≡ some r → n ≢ r.name)
      → Means e n (ambiguous is)
