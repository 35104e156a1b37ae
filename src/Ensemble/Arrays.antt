-- ===== src/Ensemble/Arrays.antt =====
-- Reads after the writes and shifts on the arrays of generic/itclEnsemble.c.
use itcl.Prelude.{
  ℕ, zero, suc, ◌+◌, ◌≡◌, ◌≢◌, refl, ap, ◌∙◌, sym, ◌<◌, ◌≤◌, List, Option, none, some, leb,
  if◌then◌else◌, length, get_elem?, set, take, replicate, arith, inl, inr, Bool-cases, ◌>>=◌,
  ltb_of_lt, length-set, length-take, length-append, length-replicate, get_elem?-set_self,
  get_elem?-set_ne, get_elem?-take, compare-cases,
}
use itcl.Ensemble.Search.{cell}
use itcl.Ensemble.Parts.{Part, Ensemble, put, make_room, shift_up}

abbrev pub flat : Option (Option Part) → Option Part
flat none = none
flat (some c) = c

cell-flat : (cells : List (Option Part)) (i : ℕ) → cell cells i ≡ flat (get_elem? cells i)
unfolding cell
cell-flat cells i = refl

-- A write within the array.
pub record IsPut (i : ℕ) (v : Option Part) (cells cells' : List (Option Part)) : Type 0 where
  pub size : length cells' ≡ length cells
  pub at_index : cell cells' i ≡ v
  pub elsewhere : (j : ℕ) → i ≢ j → cell cells' j ≡ cell cells j

pub put-IsPut :
    (i : ℕ) (v : Option Part) (cells : List (Option Part))
    → i < length cells
    → (put i v cells ≡ some (set cells i v)) × IsPut i v cells (set cells i v)
unfolding put
put-IsPut i v cells h = (
  ap (λ b. if b then some (set cells i v) else none) (ltb_of_lt i _ h),
  record {
    size = length-set cells i v;
    at_index = cell-flat _ i ∙ ap flat (get_elem?-set_self cells i v h);
    elsewhere =
        λ j ne. cell-flat _ j ∙ (ap flat (get_elem?-set_ne cells i j v ne) ∙ sym (cell-flat _ j));
  },
)

-- The cells after `parts[i] = parts[i-1]` for `i` from `pos + k` down to `pos + 1`.
pub record IsShifted (k pos : ℕ) (cells cells' : List (Option Part)) : Type 0 where
  pub size : length cells' ≡ length cells
  pub below : (j : ℕ) → j ≤ pos → cell cells' j ≡ cell cells j
  pub moved : (j : ℕ) → pos ≤ j → j < pos + k → cell cells' (j + 1) ≡ cell cells j
  pub above : (j : ℕ) → pos + k < j → cell cells' j ≡ cell cells j

next_index : (j pos k : ℕ) → j ≡ pos + k → j + 1 ≡ pos + suc k
next_index j pos k e = omega arith

next_cell :
    (cells : List (Option Part)) (j pos k : ℕ)
    → j ≡ pos + k
    → cell cells (j + 1) ≡ cell cells (pos + suc k)
next_cell cells j pos k e = ap (cell cells) (next_index j pos k e)

pub shift_up-IsShifted :
    (k pos : ℕ) (cells : List (Option Part))
    → pos + k < length cells
    → (cells' : List (Option Part)) × (shift_up k pos cells ≡ some cells')
      × IsShifted k pos cells cells'
unfolding shift_up
shift_up-IsShifted zero pos cells h = (
  cells,
  refl,
  record {
    size = refl;
    below = λ j u. refl;
    moved = λ j u v. absurd (omega arith);
    above = λ j u. refl;
  },
)
shift_up-IsShifted (suc k) pos cells h =
    let (e, w) = put-IsPut (pos + suc k) (cell cells (pos + k)) cells (omega arith) in
    let (cells', r, s) =
      shift_up-IsShifted k pos (set cells (pos + suc k) (cell cells (pos + k)))
        (omega (arith, w.size)) in
    (
      cells',
      ap (λ o. o >>= shift_up k pos) e ∙ r,
      record {
        size = s.size ∙ w.size;
        below = λ j u. s.below j u ∙ w.elsewhere j (λ q. absurd (omega arith));
        moved = λ j u v. elim (compare-cases j (pos + k)) [
          | inl t ↦ s.moved j u t ∙ w.elsewhere j (λ q. absurd (omega arith))
          | inr (inl t) ↦
              s.above (j + 1) (omega arith)
              ∙ (next_cell (set cells (pos + suc k) (cell cells (pos + k))) j pos k t
                  ∙ (w.at_index ∙ ap (cell cells) (sym t)))
          | inr (inr t) ↦ absurd (omega arith)
        ];
        above = λ j u. s.above j (omega arith) ∙ w.elsewhere j (λ q. absurd (omega arith));
      },
    )

-- The array has room for another part after `make_room`, and the parts are where they were.
pub record HasRoom (e : Ensemble) : Type 0 where
  pub array : length e.parts ≡ e.max_parts
  pub fits : e.num_parts ≤ e.max_parts
  pub some_room : 0 < e.max_parts

pub record IsGrown (e e' : Ensemble) : Type 0 where
  pub room : HasRoom e'
  pub free_cell : e'.num_parts < e'.max_parts
  pub num : e'.num_parts ≡ e.num_parts
  pub kept : (i : ℕ) → i < e.num_parts → cell e'.parts i ≡ cell e.parts i

pub make_room-IsGrown : (e : Ensemble) → HasRoom e → IsGrown e (make_room e)
unfolding make_room
make_room-IsGrown e h = elim (Bool-cases (leb e.max_parts e.num_parts)) [
  | inl l ↦ rw l (record {
    room = record {
      array = omega (
        arith,
        length-append (take e.max_parts e.parts) (replicate {A = Option Part} e.max_parts none),
        length-take e.max_parts e.parts (omega (arith, h.array)),
        length-replicate {A = Option Part} e.max_parts none,
      );
      fits = omega (arith, h.fits);
      some_room = omega (arith, h.some_room);
    };
    free_cell = omega (arith, h.fits, h.some_room);
    num = refl;
    kept = λ i u.
        cell-flat _ i
        ∙ (ap flat (
              get_elem?-take e.max_parts i e.parts (replicate e.max_parts none)
                (omega (arith, h.fits)) (omega (arith, h.array)))
            ∙ sym (cell-flat e.parts i));
  })
  | inr l ↦
      rw l (record { room = h; free_cell = ground (arith, l); num = refl; kept = λ i u. refl })
]
