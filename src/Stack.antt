-- ===== src/Stack.antt =====
-- The generic stack of generic/itclUtil.c and generic/itcl.h: an array that starts as a buffer of
-- five cells inside the structure and doubles when it is full.
pub mod Contents
use itcl.Prelude.{
  ℕ, ◌+◌, ◌*◌, ◌-◌, ◌≡◌, refl, Bool, true, false, ◌&&◌, Option, none, some, List, [], ◌++◌, leb,
  ltb, if◌then◌else◌, length, get_elem?, set, take, replicate,
}

-- Where `values` points: nowhere, at the built-in `space`, or at allocated memory.
pub data Place : Type 0 where
  null space heap : Place

-- A cell that was never written holds `none`.
pub record Stack {ℓ} (A : Type ℓ) : Type ℓ where
  pub place : Place
  pub cells : List (Option A)
  pub len : ℕ
  pub max : ℕ

-- `values != NULL`
abbrev pub is_set : Place → Bool
is_set Place.null = false
is_set _ = true

module _ {ℓ} {A : Type ℓ} where
  unfoldable pub init_stack : Stack A
  init_stack = record { place = Place.space; cells = replicate 5 none; len = 0; max = 5 }

  unfoldable pub delete_stack : Stack A → Stack A
  delete_stack s = record { place = Place.null; cells = []; len = 0; max = 0 }

  -- A new array of `2 * max` cells with the old values copied, if there are any.
  grow : Stack A → Stack A
  grow s =
      let max' = 2 * s.max in
      record s {
        place = Place.heap;
        cells =
            if is_set s.place
            then take s.len s.cells ++ replicate (max' - s.len) none
            else replicate max' none;
        max = max';
      }

  -- `values[len++] = cdata`; `none` is a write behind the end of the array.
  store : A → Stack A → Option (Stack A)
  store x s =
      if ltb s.len (length s.cells)
      then some (record s { cells = set s.cells s.len (some x); len = s.len + 1 })
      else none

  unfoldable pub push_stack : A → Stack A → Option (Stack A)
  unfolding grow store
  push_stack x s = store x (if leb s.max (s.len + 1) then grow s else s)

  -- The cell at an index: `none` for a cell out of the array or never written.
  cell : List (Option A) → ℕ → Option A
  cell cells i = elim (get_elem? cells i) [ none ↦ none | some c ↦ c ]

  unfoldable pub pop_stack : Stack A → Option A × Stack A
  unfolding cell
  pop_stack s =
      if is_set s.place && ltb 0 s.len
      then (cell s.cells (s.len - 1), record s { len = s.len - 1 })
      else (none, s)

  unfoldable pub peek_stack : Stack A → Option A
  unfolding cell
  peek_stack s = if is_set s.place && ltb 0 s.len then cell s.cells (s.len - 1) else none

  -- Positions are unsigned here; `pos < 0` gives NULL in the code too.
  pub get_stack_value : Stack A → ℕ → Option A
  unfolding cell
  get_stack_value s pos = if is_set s.place && ltb pos s.len then cell s.cells pos else none

  unfoldable pub get_stack_size : Stack A → ℕ
  get_stack_size s = s.len
