-- ===== src/Tests/Stacks.antt =====
-- Runs of the stack of generic/itclUtil.c.
use itcl.Prelude.{ℕ, ◌≡◌, refl, none, some, [], ◌∷◌, arith}
use itcl.Stack.{Place, Stack, push_stack, pop_stack, peek_stack, get_stack_value, delete_stack}
use itcl.Stack.Contents.{Holds, push_stack-Holds, pop_stack-Holds, get_stack_value-Holds}

-- Four values in the built-in buffer: the next push doubles it.
abbrev four : Stack ℕ
four = record {
  place = Place.space;
  cells = some 10 ∷ some 20 ∷ some 30 ∷ some 40 ∷ none ∷ [];
  len = 4;
  max = 5;
}

four-Holds : Holds four (40 ∷ 30 ∷ 20 ∷ 10 ∷ [])
four-Holds = record {
  allocated = refl;
  size = refl;
  array = refl;
  room = omega arith;
  filled = (refl, (refl, (refl, (refl, tt))));
}

grown : Stack ℕ
grown = record {
  place = Place.heap;
  cells = some 10 ∷ some 20 ∷ some 30 ∷ some 40 ∷ some 50 ∷ none ∷ none ∷ none ∷ none ∷ none ∷ [];
  len = 5;
  max = 10;
}

push_fifth : push_stack 50 four ≡ some grown
unfolding push_stack grown
push_fifth = refl

push_stack-Holds_example :
    (t : Stack ℕ) × (push_stack 50 four ≡ some t) × Holds t (50 ∷ 40 ∷ 30 ∷ 20 ∷ 10 ∷ [])
push_stack-Holds_example = push_stack-Holds 50 four (40 ∷ 30 ∷ 20 ∷ 10 ∷ []) four-Holds

pop_stack-Holds_example :
    (peek_stack four ≡ some 40)
    × ((t : Stack ℕ) × (pop_stack four ≡ (some 40, t)) × Holds t (30 ∷ 20 ∷ 10 ∷ []))
pop_stack-Holds_example = pop_stack-Holds four 40 (30 ∷ 20 ∷ 10 ∷ []) four-Holds

get_stack_value-Holds_example : get_stack_value four 1 ≡ some 20
get_stack_value-Holds_example = get_stack_value-Holds four (40 ∷ 30 ∷ []) (10 ∷ []) 20 four-Holds

-- A push on a stack that was deleted, and not initialised again, writes out of bounds: doubling the
-- capacity 0 leaves it 0.
push_deleted : push_stack 1 (delete_stack four) ≡ none
unfolding push_stack delete_stack
push_deleted = refl
