-- ===== src/Stack/Contents.antt =====
-- What an `Itcl_Stack` holds, as a list with the top first, and each operation on that view.
use itcl.Prelude.{
  ℕ, ◌+◌, ◌*◌, ◌-◌, ◌≤◌, ◌<◌, ◌≡◌, refl, ap, ◌∙◌, sym, inl, inr, true, Option, none, some, List, [],
  ◌∷◌, ◌++◌, arith, leb, Bool-cases, length, get_elem?, set, take, replicate, length-append,
  length-set, length-replicate, length-take, get_elem?-set_self, get_elem?-set_ne, get_elem?-take,
}
use itcl.Stack.{
  Stack, is_set, init_stack, grow, store, push_stack, cell, pop_stack, peek_stack, get_stack_value,
  get_stack_size,
}

module _ {ℓ} {A : Type ℓ} where
  -- The first cells hold `xs`, the last of them the top.
  abbrev pub Filled : List (Option A) → List A → Type ℓ
  Filled cells [] = Unit
  Filled cells (x ∷ xs) = (get_elem? cells (length xs) ≡ some (some x)) × Filled cells xs

  pub record Holds (s : Stack A) (xs : List A) : Type ℓ where
    pub allocated : is_set s.place ≡ true
    pub size : s.len ≡ length xs
    pub array : length s.cells ≡ s.max
    pub room : s.len < s.max
    pub filled : Filled s.cells xs

  Filled-ext :
      (cs ds : List (Option A)) (n : ℕ) (xs : List A)
      → ((i : ℕ) → i < n → get_elem? ds i ≡ get_elem? cs i)
      → length xs ≤ n
      → Filled cs xs
      → Filled ds xs
  Filled-ext cs ds n [] same le f = tt
  Filled-ext cs ds n (x ∷ xs) same le f =
      (same (length xs) (omega arith) ∙ f.0, Filled-ext cs ds n xs same (omega arith) f.1)

  Filled-set :
      (cs : List (Option A)) (n : ℕ) (x : A) (xs : List A)
      → n ≡ length xs
      → n < length cs
      → Filled cs xs
      → Filled (set cs n (some x)) (x ∷ xs)
  Filled-set cs n x xs e h f = (
    ap (get_elem? (set cs n (some x))) (sym e) ∙ get_elem?-set_self cs n (some x) h,
    Filled-ext cs _ n xs (λ i lt. get_elem?-set_ne cs n i (some x) (λ e. omega arith)) (omega arith)
        f,
  )

  -- The array after `grow` keeps what the stack holds and has room for two more.
  Holds-grow : (s : Stack A) (xs : List A) → Holds s xs → Holds (grow s) xs
  unfolding grow
  Holds-grow s xs h =
      let copied = take s.len s.cells in
      let spare : List (Option A) = replicate (2 * s.max - s.len) none in
      let fits : s.len ≤ length s.cells = omega (arith, h.array, h.room) in
      rw h.allocated (record {
        allocated = refl;
        size = h.size;
        array = omega (
          arith,
          length-append copied spare,
          length-take s.len s.cells fits,
          length-replicate {A = Option A} (2 * s.max - s.len) none,
          h.room,
        );
        room = omega (arith, h.room);
        filled =
            Filled-ext s.cells _ s.len xs (λ i lt. get_elem?-take s.len i s.cells spare lt fits)
              (omega (arith, h.size)) h.filled;
      })

  grow-room : (s : Stack A) (xs : List A) → Holds s xs → (grow s).len + 1 < (grow s).max
  unfolding grow
  grow-room s xs h = omega (arith, h.room)

  Holds-store :
      (x : A) (s : Stack A) (xs : List A)
      → Holds s xs
      → s.len + 1 < s.max
      → (t : Stack A) × (store x s ≡ some t) × Holds t (x ∷ xs)
  unfolding store
  Holds-store x s xs h free = (
    record s { cells = set s.cells s.len (some x); len = s.len + 1 },
    ground (arith, h.array, h.room),
    record {
      allocated = h.allocated;
      size = omega (arith, h.size);
      array = length-set s.cells s.len (some x) ∙ h.array;
      room = free;
      filled = Filled-set s.cells s.len x xs h.size (omega (arith, h.array, h.room)) h.filled;
    },
  )

  pub Holds-init : Holds (init_stack {A = A}) []
  unfolding init_stack
  Holds-init = record {
    allocated = refl;
    size = refl;
    array = refl;
    room = omega arith;
    filled = tt;
  }

  -- Pushing always finds room, growing the array when it is nearly full, and puts the value on top.
  pub push_stack-Holds :
      (x : A) (s : Stack A) (xs : List A)
      → Holds s xs
      → (t : Stack A) × (push_stack x s ≡ some t) × Holds t (x ∷ xs)
  unfolding push_stack
  push_stack-Holds x s xs h = elim (Bool-cases (leb s.max (s.len + 1))) [
    | inl full ↦ rw full (Holds-store x (grow s) xs (Holds-grow s xs h) (grow-room s xs h))
    | inr free ↦ rw free (Holds-store x s xs h (ground arith))
  ]

  -- Popping a stack that holds `x` on top of `xs` returns `x` and leaves `xs`; peeking returns `x`.
  pub pop_stack-Holds :
      (s : Stack A) (x : A) (xs : List A)
      → Holds s (x ∷ xs)
      → (peek_stack s ≡ some x) × ((t : Stack A) × (pop_stack s ≡ (some x, t)) × Holds t xs)
  unfolding pop_stack peek_stack
  pop_stack-Holds s x xs h = (
    ground (arith, h.allocated, h.size, at_top),
    (
      record s { len = s.len - 1 },
      ground (arith, h.allocated, h.size, at_top),
      record {
        allocated = h.allocated;
        size = omega (arith, h.size);
        array = h.array;
        room = omega (arith, h.room);
        filled = h.filled.1;
      },
    ),
  )
    where
      top : s.len - 1 ≡ length xs
      top = omega (arith, h.size)

      at_top : cell s.cells (s.len - 1) ≡ some x
      at_top = rw (top, cell, h.filled.0)

  -- Popping and peeking at an empty stack return NULL and change nothing.
  pub pop_stack-empty :
      (s : Stack A) → Holds s [] → (peek_stack s ≡ none) × (pop_stack s ≡ (none, s))
  unfolding pop_stack peek_stack
  pop_stack-empty s h = (ground (arith, h.allocated, h.size), ground (arith, h.allocated, h.size))

  Filled-at :
      (cs : List (Option A)) (above below : List A) (x : A)
      → Filled cs (above ++ x ∷ below)
      → get_elem? cs (length below) ≡ some (some x)
  Filled-at cs [] below x f = f.0
  Filled-at cs (y ∷ above) below x f = Filled-at cs above below x f.1

  -- A position counts the values below: the value with `pos` others below it is found at `pos`.
  pub get_stack_value-Holds :
      (s : Stack A) (above below : List A) (x : A)
      → Holds s (above ++ x ∷ below)
      → get_stack_value s (length below) ≡ some x
  unfolding get_stack_value
  get_stack_value-Holds s above below x h =
      ground (arith, h.allocated, h.size, length-append above (x ∷ below), at_pos)
    where
      at_pos : cell s.cells (length below) ≡ some x
      at_pos = rw (Filled-at s.cells above below x h.filled, cell)

  -- A position at or above the size gives NULL.
  pub get_stack_value-outside :
      (s : Stack A) (xs : List A) (pos : ℕ)
      → Holds s xs
      → get_stack_size s ≤ pos
      → get_stack_value s pos ≡ none
  unfolding get_stack_value get_stack_size
  get_stack_value-outside s xs pos h le = ground (arith, h.allocated)
