-- ===== src/Ensemble/Parts.antt =====
-- Ensemble, FindEnsemblePart, FindEnsemblePartIndex, ComputeMinChars, CreateEnsemblePart, and the
-- removal from the list in DeleteEnsemblePart, of generic/itclEnsemble.c.
use itcl.Prelude.{
  ℕ, zero, suc, ◌+◌, ◌-◌, ◌*◌, Bool, true, false, Option, none, some, List, [], ◌∷◌, ◌++◌, ltb, leb,
  ◌>>=◌, if◌then◌else◌, length, set, take, replicate,
}
use itcl.Prelude.Bytes.{Bytes}
use itcl.Ensemble.Names.{is_same, name_order, abbreviation_order, strncmp, count_min}
use itcl.Ensemble.Search.{Search, found, missing, cell, search}

-- Of an `EnsemblePart` the name and the characters that an abbreviation needs.
pub record Part : Type 0 where
  pub name : Bytes
  pub min_chars : ℕ

-- The array `parts` has `max_parts` cells, the first `num_parts` of them in use.
pub record Ensemble : Type 0 where
  pub parts : List (Option Part)
  pub num_parts : ℕ
  pub max_parts : ℕ

unfoldable pub find_part_index : Bool → Ensemble → Bytes → Search
unfolding search
find_part_index signed e name =
    search (λ p. name_order signed name p.name) e.parts (e.num_parts + 1) 0 e.num_parts

pub data Found : Type 0 where
  no_part : Found
  part : ℕ → Found
  ambiguous : List ℕ → Found
  stuck : Found

-- `strncmp(partName, ensData->parts[i]->name, nlen) == 0`, and `nlen < minChars`, of a part.
abbrev pub matches : Bytes → Option Part → Bool
matches name none = false
matches name (some p) = is_same (strncmp name p.name (length name))

abbrev pub too_short : Bytes → Option Part → Bool
too_short name none = false
too_short name (some p) = ltb (length name) p.min_chars

-- The loop that goes back to the top-most match.
unfoldable pub top_match : Bytes → List (Option Part) → ℕ → ℕ
unfolding cell
top_match name parts zero = zero
top_match name parts (suc i) =
    let above = top_match name parts i in if matches name (cell parts i) then above else suc i

-- The parts that the message names: from a position on, as long as they match.
unfoldable pub matching : Bytes → List (Option Part) → ℕ → ℕ → List ℕ
unfolding cell
matching name parts zero i = []
matching name parts (suc k) i =
    let rest = matching name parts k (suc i) in if matches name (cell parts i) then i ∷ rest else []

-- A match at a position: `pos` goes back if the name is too short, and is tested again.
unfoldable pub find_from : Ensemble → Bytes → ℕ → Found
unfolding cell top_match matching
find_from e name pos =
    let top = if too_short name (cell e.parts pos) then top_match name e.parts pos else pos in
    if too_short name (cell e.parts top)
    then ambiguous (matching name e.parts (e.num_parts - top) top)
    else part top

unfoldable pub find_result : Ensemble → Bytes → Search → Found
unfolding find_from
find_result e name (missing k) = no_part
find_result e name (found pos) = find_from e name pos
find_result e name _ = stuck

unfoldable pub find_part : Bool → Ensemble → Bytes → Found
unfolding search find_result
find_part signed e name =
    find_result e name
      (search (λ p. abbreviation_order signed name p.name) e.parts (e.num_parts + 1) 0 e.num_parts)

-- A write to a cell; `none` is one out of bounds.
unfoldable pub put : ℕ → Option Part → List (Option Part) → Option (List (Option Part))
put i v cells = if ltb i (length cells) then some (set cells i v) else none

-- The characters needed against a neighbour, if there is one.
abbrev pub with_neighbour : Bool → Option Part → Bytes → ℕ → Option ℕ
with_neighbour false q name min = some min
with_neighbour true none name min = none
with_neighbour true (some q) name min =
    let m = count_min name q.name 1 in some (if ltb min m then m else min)

unfoldable pub compute_min_chars : ℕ → Ensemble → Option Ensemble
unfolding put cell
compute_min_chars pos e =
    if ltb pos e.num_parts
    then (do
      p ← cell e.parts pos
      min ← with_neighbour (ltb 0 pos) (cell e.parts (pos - 1)) p.name 1
      min ← with_neighbour (ltb (pos + 1) e.num_parts) (cell e.parts (pos + 1)) p.name min
      let max = length p.name in
          do
            parts ←
                put pos (some (record p { min_chars = if ltb max min then max else min })) e.parts
            some (record e { parts = parts }))
    else some e

-- The call with `pos - 1`, which is invalid for 0.
unfoldable pub compute_before : ℕ → Ensemble → Option Ensemble
unfolding compute_min_chars
compute_before zero e = some e
compute_before (suc i) e = compute_min_chars i e

-- `if (numParts >= maxParts)`: an array of twice the size, with the old one copied.
unfoldable pub make_room : Ensemble → Ensemble
make_room e =
    if leb e.max_parts e.num_parts
    then record e {
      parts = take e.max_parts e.parts ++ replicate e.max_parts none;
      max_parts = e.max_parts * 2;
    }
    else e

-- `for (i=numParts; i > pos; i--) parts[i] = parts[i-1];`, with the rounds left.
unfoldable pub shift_up : ℕ → ℕ → List (Option Part) → Option (List (Option Part))
unfolding put cell
shift_up zero pos cells = some cells
shift_up (suc k) pos cells = do
  cells ← put (pos + suc k) (cell cells (pos + k)) cells
  shift_up k pos cells

pub data Created : Type 0 where
  created : ℕ → Ensemble → Created
  exists_already : Created
  failed : Created

abbrev pub created_at : ℕ → Option Ensemble → Created
created_at pos none = failed
created_at pos (some e) = created pos e

-- The three calls after the new part is in the array.
unfoldable pub compute_three : ℕ → Ensemble → Option Ensemble
unfolding compute_before compute_min_chars
compute_three pos e = do
  e ← compute_min_chars pos e
  e ← compute_before pos e
  compute_min_chars (pos + 1) e

unfoldable pub insert_part : Bytes → ℕ → Ensemble → Option Ensemble
unfolding shift_up make_room put compute_three
insert_part name pos e =
    let e = make_room e in
    do
      cells ← shift_up (e.num_parts - pos) pos e.parts
      cells ← put pos (some (record { name = name; min_chars = 0 })) cells
      compute_three pos (record e { parts = cells; num_parts = e.num_parts + 1 })

unfoldable pub create_result : Bytes → Ensemble → Search → Created
unfolding insert_part
create_result name e (found pos) = exists_already
create_result name e (missing pos) = created_at pos (insert_part name pos e)
create_result name e _ = failed

unfoldable pub create_part : Bool → Ensemble → Bytes → Created
unfolding find_part_index create_result
create_part signed e name = create_result name e (find_part_index signed e name)

-- `for (i=pos; i < numParts-1; i++) parts[i] = parts[i+1];`, with the rounds left.
unfoldable pub shift_down : ℕ → ℕ → List (Option Part) → Option (List (Option Part))
unfolding put cell
shift_down zero pos cells = some cells
shift_down (suc k) pos cells = do
  cells ← put pos (cell cells (pos + 1)) cells
  shift_down k (pos + 1) cells

unfoldable pub remove_at : Ensemble → Search → Option Ensemble
unfolding shift_down
remove_at e (found pos) = do
  cells ← shift_down (e.num_parts - 1 - pos) pos e.parts
  some (record e { parts = cells; num_parts = e.num_parts - 1 })
remove_at e (missing pos) = some e
remove_at e _ = none

unfoldable pub delete_part : Bool → Ensemble → Bytes → Option Ensemble
unfolding find_part_index remove_at
delete_part signed e name = remove_at e (find_part_index signed e name)
