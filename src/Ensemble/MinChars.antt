-- ===== src/Ensemble/MinChars.antt =====
-- ComputeMinChars of generic/itclEnsemble.c stores the characters that a part needs and changes
-- nothing else.
use itcl.Prelude.{
  ℕ, ◌+◌, ◌-◌, ◌≡◌, ◌≢◌, refl, ap, ◌∙◌, sym, ◌<◌, ◌≤◌, Bool, true, false, List, Option, none, some,
  ltb, if◌then◌else◌, length, set, arith, inl, inr, Bool-cases, ◌==◌, ==_iff,
}
use itcl.Prelude.Bytes.{Bytes}
use itcl.Ensemble.Names.{count_min, count_min-bound}
use itcl.Ensemble.Search.{cell}
use itcl.Ensemble.Parts.{Part, Ensemble, with_neighbour, compute_min_chars}
use itcl.Ensemble.Invariant.{name_if, needed}
use itcl.Ensemble.Arrays.{IsPut, put-IsPut}

abbrev pub name_of : Option Part → Option Bytes
name_of none = none
name_of (some p) = some p.name

abbrev when : Bool → Option Bytes → Option Bytes
when true o = o
when false o = none

name_if-when : (b : Bool) (o : Option Part) → name_if b o ≡ when b (name_of o)
name_if-when true none = refl
name_if-when true (some p) = refl
name_if-when false none = refl
name_if-when false (some p) = refl

abbrev pub Exact : Ensemble → ℕ → Type 0
Exact e i =
    (p : Part)
    → cell e.parts i ≡ some p
    → p.min_chars
      ≡ needed (name_if (ltb 0 i) (cell e.parts (i - 1))) p.name
          (name_if (ltb (i + 1) e.num_parts) (cell e.parts (i + 1)))

-- The same array with the same names.
pub record SameNames (e e' : Ensemble) : Type 0 where
  pub num : e'.num_parts ≡ e.num_parts
  pub max : e'.max_parts ≡ e.max_parts
  pub size : length e'.parts ≡ length e.parts
  pub names : (j : ℕ) → name_of (cell e'.parts j) ≡ name_of (cell e.parts j)

name_if-SameNames :
    (e e' : Ensemble) (b : Bool) (j : ℕ)
    → SameNames e e'
    → name_if b (cell e'.parts j) ≡ name_if b (cell e.parts j)
name_if-SameNames e e' b j s = name_if-when b _ ∙ (ap (when b) (s.names j) ∙ sym (name_if-when b _))

abbrev needed_at : Ensemble → ℕ → Bytes → ℕ
needed_at e j name =
    needed (name_if (ltb 0 j) (cell e.parts (j - 1))) name
      (name_if (ltb (j + 1) e.num_parts) (cell e.parts (j + 1)))

needed_at-SameNames :
    (e e' : Ensemble) (j : ℕ) (name : Bytes)
    → SameNames e e'
    → needed_at e j name ≡ needed_at e' j name
needed_at-SameNames e e' j name s =
    ap (λ o. needed o name (name_if (ltb (j + 1) e.num_parts) (cell e.parts (j + 1))))
      (sym (name_if-SameNames e e' (ltb 0 j) (j - 1) s))
    ∙ ap (needed (name_if (ltb 0 j) (cell e'.parts (j - 1))) name) (
        sym (name_if-SameNames e e' (ltb (j + 1) e.num_parts) (j + 1) s)
        ∙ ap (λ n. name_if (ltb (j + 1) n) (cell e'.parts (j + 1))) (sym s.num))

pub Exact-SameNames :
    (e e' : Ensemble) (j : ℕ)
    → SameNames e e'
    → cell e'.parts j ≡ cell e.parts j
    → Exact e j
    → Exact e' j
Exact-SameNames e e' j s c h p at = h p (sym c ∙ at) ∙ needed_at-SameNames e e' j p.name s

-- The minimum after a neighbour has been looked at.
abbrev after : Bytes → Option Bytes → ℕ → ℕ
after name none min = min
after name (some q) min = let m = count_min name q 1 in if ltb min m then m else min

with_neighbour-after :
    (b : Bool) (o : Option Part) (name : Bytes) (min : ℕ)
    → (b ≡ true → (q : Part) × (o ≡ some q))
    → with_neighbour b o name min ≡ some (after name (name_if b o) min)
with_neighbour-after false none name min h = refl
with_neighbour-after false (some q) name min h = refl
with_neighbour-after true none name min h = let (q, e) = h refl in cc e
with_neighbour-after true (some q) name min h = refl

abbrev capped : ℕ → ℕ → ℕ
capped max min = if ltb max min then max else min

after-needed :
    (prev : Option Bytes) (name : Bytes) (next : Option Bytes)
    → capped (length name) (after name next (after name prev 1)) ≡ needed prev name next
after-needed none name none = ground arith
after-needed none name (some r) = ground (arith, count_min-bound name r 1)
after-needed (some q) name none = ground (arith, count_min-bound name q 1)
after-needed (some q) name (some r) =
    ground (arith, count_min-bound name q 1, count_min-bound name r 1)

-- The cells in use are written and lie in the array.
pub record IsFilled (e : Ensemble) : Type 0 where
  pub filled : (i : ℕ) → i < e.num_parts → (p : Part) × (cell e.parts i ≡ some p)
  pub inside : e.num_parts ≤ length e.parts

pub record IsComputed (i : ℕ) (e e' : Ensemble) : Type 0 where
  pub same_names : SameNames e e'
  pub exact : i < e.num_parts → Exact e' i
  pub others : (j : ℕ) → i ≢ j → cell e'.parts j ≡ cell e.parts j

abbrev neighbour_names : Ensemble → ℕ → Part → ℕ
neighbour_names e i p = capped (length p.name) (
    after p.name (name_if (ltb (i + 1) e.num_parts) (cell e.parts (i + 1)))
      (after p.name (name_if (ltb 0 i) (cell e.parts (i - 1))) 1))

abbrev computed : Ensemble → ℕ → Part → Ensemble
computed e i p = record e {
  parts = set e.parts i (some (record { name = p.name; min_chars = neighbour_names e i p }));
}

compute_min_chars-computed :
    (i : ℕ) (e : Ensemble) (p : Part)
    → IsFilled e
    → ltb i e.num_parts ≡ true
    → cell e.parts i ≡ some p
    → compute_min_chars i e ≡ some (computed e i p)
unfolding compute_min_chars
compute_min_chars-computed i e p k l at =
    let before =
      with_neighbour-after (ltb 0 i) (cell e.parts (i - 1)) p.name 1
        (λ b. k.filled (i - 1) (ground (arith, b, l))) in
    let next =
      with_neighbour-after (ltb (i + 1) e.num_parts) (cell e.parts (i + 1)) p.name
        (after p.name (name_if (ltb 0 i) (cell e.parts (i - 1))) 1)
        (λ b. k.filled (i + 1) (ground (arith, b))) in
    let (w, _) =
      put-IsPut i (some (record { name = p.name; min_chars = neighbour_names e i p })) e.parts
        (ground (arith, l, k.inside)) in
    rw (l, at, before, next, w)

or_part : Part → Option Part → Part
or_part p none = p
or_part p (some q) = q

pub part_eq : (p q : Part) → some p ≡ some q → p ≡ q
unfolding or_part
part_eq p q h = ap (or_part p) h

computed-SameNames :
    (e : Ensemble) (i : ℕ) (p q : Part) (cells : List (Option Part))
    → IsPut i (some q) e.parts cells
    → cell e.parts i ≡ some p
    → q.name ≡ p.name
    → SameNames e (record e { parts = cells })
computed-SameNames e i p q cells w at n = record {
  num = refl;
  max = refl;
  size = w.size;
  names = λ j. elim (Bool-cases (i == j)) [
    | inl b ↦
        ap (λ k. name_of (cell cells k)) (sym ((==_iff i j).0 b))
        ∙ (ap name_of w.at_index
            ∙ (ap some n
                ∙ (ap name_of (sym at) ∙ ap (λ k. name_of (cell e.parts k)) ((==_iff i j).0 b))))
    | inr b ↦ ap name_of (w.elsewhere j (λ q. ground (arith, b, q)))
  ];
}

compute_behind : (i : ℕ) (e : Ensemble) → ltb i e.num_parts ≡ false → compute_min_chars i e ≡ some e
unfolding compute_min_chars
compute_behind i e l = rw l

pub of_name : (o : Option Part) (a : Bytes) → name_of o ≡ some a → (p : Part) × (o ≡ some p)
of_name none a h = cc h
of_name (some p) a h = (p, refl)

-- ComputeMinChars at a position: within the list it makes the part there exact, it keeps all names
-- and all other parts, and behind the list it does nothing.
pub compute_min_chars-IsComputed :
    (i : ℕ) (e : Ensemble)
    → IsFilled e
    → (e' : Ensemble) × (compute_min_chars i e ≡ some e') × IsComputed i e e'
compute_min_chars-IsComputed i e k = elim (Bool-cases (ltb i e.num_parts)) [
  | inl l ↦
      let (p, at) = k.filled i (ground (arith, l)) in
      let q : Part = record { name = p.name; min_chars = neighbour_names e i p } in
      let (_, w) = put-IsPut i (some q) e.parts (ground (arith, l, k.inside)) in
      let s = computed-SameNames e i p q _ w at refl in
      (
        computed e i p,
        compute_min_chars-computed i e p k l at,
        record {
          same_names = s;
          exact = λ u r at'.
              let same = part_eq q r (sym w.at_index ∙ at') in
              sym (ap (λ x. x.min_chars) same)
              ∙ (after-needed _ p.name _
                  ∙ (ap (needed_at e i) (ap (λ x. x.name) same)
                      ∙ needed_at-SameNames e _ i r.name s));
          others = w.elsewhere;
        },
      )
  | inr l ↦ (
    e,
    compute_behind i e l,
    record {
      same_names = record { num = refl; max = refl; size = refl; names = λ j. refl };
      exact = λ u. absurd (ground (arith, l, u));
      others = λ j n. refl;
    },
  )
]

pub IsFilled-SameNames : (e e' : Ensemble) → IsFilled e → SameNames e e' → IsFilled e'
IsFilled-SameNames e e' k s = record {
  filled = λ i u.
      let (p, at) = k.filled i (omega (arith, s.num)) in
      of_name (cell e'.parts i) p.name (s.names i ∙ ap name_of at);
  inside = omega (arith, k.inside, s.size, s.num);
}
