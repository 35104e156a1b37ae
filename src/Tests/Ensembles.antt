-- ===== src/Tests/Ensembles.antt =====
-- Runs of the part lists of generic/itclEnsemble.c.
use itcl.Prelude.{
  ℕ, zero, suc, ◌≡◌, refl, true, none, some, [], ◌∷◌, arith, ◌<◌, Option, sym, ap, ◌∙◌, ◌+◌, ◌-◌,
  ltb,
}
use itcl.Prelude.Bytes.{Bytes, codes}
use itcl.Ensemble.Parts.{
  Part, Ensemble, part, ambiguous, find_part, create_part, created, delete_part,
}
use itcl.Ensemble.Names.{Precedes, name_order}
use itcl.Ensemble.Search.{cell}
use itcl.Ensemble.Invariant.{IsWellFormed, needed, name_if}
use itcl.Ensemble.Arrays.{HasRoom}
use itcl.Ensemble.Delete.{Deletes, delete_part-Deletes}
use itcl.Ensemble.Create.{Creates, create_part-Creates}
use itcl.Ensemble.Meaning.{Means}
use itcl.Ensemble.Abbreviations.{find_part-Means}

abbrev a_part : Bytes → ℕ → Part
a_part name min_chars = record { name = name; min_chars = min_chars }

abbrev empty : Ensemble
empty = record { parts = none ∷ none ∷ []; num_parts = 0; max_parts = 2 }

abbrev info : Ensemble
info = record {
  parts =
      some (a_part (codes "args") 1)
      ∷ some (a_part (codes "food") 4)
      ∷ some (a_part (codes "foot") 4)
      ∷ none
      ∷ [];
  num_parts = 3;
  max_parts = 4;
}

abbrev or_else_value {ℓ} : {A : Type ℓ} → A → Option A → A
or_else_value a none = a
or_else_value a (some b) = b

part_eq : (p q : Part) → some p ≡ some q → p ≡ q
part_eq p q h = ap (or_else_value p) h

info_filled : (i : ℕ) → i < 3 → (p : Part) × (cell info.parts i ≡ some p)
unfolding cell
info_filled zero h = (_, refl)
info_filled (suc zero) h = (_, refl)
info_filled (suc (suc zero)) h = (_, refl)
info_filled (suc (suc (suc i))) h = absurd (omega arith)

info_names : ℕ → Bytes
info_names zero = codes "args"
info_names (suc zero) = codes "food"
info_names (suc (suc i)) = codes "foot"

info_name : (i : ℕ) (p : Part) → i < 3 → cell info.parts i ≡ some p → p.name ≡ info_names i
unfolding cell info_names
info_name zero p h at = sym (ap (λ q. q.name) (part_eq _ p at))
info_name (suc zero) p h at = sym (ap (λ q. q.name) (part_eq _ p at))
info_name (suc (suc zero)) p h at = sym (ap (λ q. q.name) (part_eq _ p at))
info_name (suc (suc (suc i))) p h at = absurd (omega arith)

info_order : (i j : ℕ) → i < j → j < 3 → Precedes true (info_names i) (info_names j)
unfolding info_names
info_order zero (suc zero) h k = refl
info_order zero (suc (suc zero)) h k = refl
info_order (suc zero) (suc (suc zero)) h k = refl
info_order i (suc (suc (suc j))) h k = absurd (omega arith)
info_order i zero h k = absurd (omega arith)
info_order (suc i) (suc zero) h k = absurd (omega arith)
info_order (suc (suc i)) (suc (suc zero)) h k = absurd (omega arith)

info_exact :
    (i : ℕ) (p : Part)
    → i < 3
    → cell info.parts i ≡ some p
    → p.min_chars
      ≡ needed
          (name_if (ltb 0 i) (cell info.parts (i - 1)))
          p.name
          (name_if (ltb (i + 1) 3) (cell info.parts (i + 1)))
unfolding cell
info_exact zero p h at =
    sym (ap (λ q. q.min_chars) (part_eq _ p at))
    ∙ ap (λ q. needed none q.name (some (codes "food"))) (part_eq _ p at)
info_exact (suc zero) p h at =
    sym (ap (λ q. q.min_chars) (part_eq _ p at))
    ∙ ap (λ q. needed (some (codes "args")) q.name (some (codes "foot"))) (part_eq _ p at)
info_exact (suc (suc zero)) p h at =
    sym (ap (λ q. q.min_chars) (part_eq _ p at))
    ∙ ap (λ q. needed (some (codes "food")) q.name none) (part_eq _ p at)
info_exact (suc (suc (suc i))) p h at = absurd (omega arith)

info-IsWellFormed : IsWellFormed true info
info-IsWellFormed = record {
  filled = info_filled;
  ascending = λ i j p q h k x y.
      ap (λ b. name_order true b q.name) (info_name i p (omega arith) x)
      ∙ (ap (name_order true (info_names i)) (info_name j q k y) ∙ info_order i j h k);
  exact = info_exact;
}

find_part-Means_example : Means info (codes "fo") (find_part true info (codes "fo"))
find_part-Means_example = find_part-Means true info info-IsWellFormed 102 (111 ∷ [])

find_args : find_part true info (codes "a") ≡ part 0
unfolding find_part
find_args = refl

find_fo : find_part true info (codes "fo") ≡ ambiguous (1 ∷ 2 ∷ [])
unfolding find_part
find_fo = refl

-- After "food" is deleted, "foot" still wants four characters.
after_delete :
    delete_part true info (codes "food")
    ≡ some (record {
      parts =
          some (a_part (codes "args") 1)
          ∷ some (a_part (codes "foot") 4)
          ∷ some (a_part (codes "foot") 4)
          ∷ none
          ∷ [];
      num_parts = 2;
      max_parts = 4;
    })
unfolding delete_part
after_delete = refl

create_first :
    create_part true empty (codes "x")
    ≡ created 0
        (record { parts = some (a_part (codes "x") 1) ∷ none ∷ []; num_parts = 1; max_parts = 2 })
unfolding create_part
create_first = refl

info-HasRoom : HasRoom info
info-HasRoom = record { array = refl; fits = omega arith; some_room = omega arith }

create_part-Creates_example : Creates true info (codes "foo") (create_part true info (codes "foo"))
create_part-Creates_example =
    create_part-Creates true info info-IsWellFormed info-HasRoom (codes "foo")

create_foo :
    create_part true info (codes "foo")
    ≡ created 1 (record {
      parts =
          some (a_part (codes "args") 1)
          ∷ some (a_part (codes "foo") 3)
          ∷ some (a_part (codes "food") 4)
          ∷ some (a_part (codes "foot") 4)
          ∷ [];
      num_parts = 4;
      max_parts = 4;
    })
unfolding create_part
create_foo = refl

delete_part-Deletes_example :
    Deletes true info (codes "food") (delete_part true info (codes "food"))
delete_part-Deletes_example =
    delete_part-Deletes true info info-IsWellFormed info-HasRoom (codes "food")

-- Only "foot" is left, but its abbreviation counts as ambiguous.
abbrev left : Ensemble
left = record {
  parts =
      some (a_part (codes "args") 1)
      ∷ some (a_part (codes "foot") 4)
      ∷ some (a_part (codes "foot") 4)
      ∷ none
      ∷ [];
  num_parts = 2;
  max_parts = 4;
}

find_after_delete : find_part true left (codes "fo") ≡ ambiguous (1 ∷ [])
unfolding find_part
find_after_delete = refl
