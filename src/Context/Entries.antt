-- ===== src/Context/Entries.antt =====
-- Entries of frameContext: stacks that are not empty.
use mathlib.Core.Path.{subst}
use itcl.Prelude.{
  ℕ, suc, ◌≡◌, ap, sym, true, false, Option, none, some, List, [], ◌∷◌, arith, ◌==◌, if◌then◌else◌,
  ==_refl, length,
}
use itcl.Stack.{Stack, init_stack, get_stack_size}
use itcl.Stack.Contents.{Holds, Holds-init, push_stack-Holds, pop_stack-Holds}
use itcl.Context.Invoke.{set_at, push_entry, popped, pop_entry}

-- An entry of the table, and the values on its stack; an empty stack has no entry.
pub data Entry : Option (Stack ℕ) → List ℕ → Type 0 where
  absent : Entry none []
  present : {t : Stack ℕ} {x : ℕ} {xs : List ℕ} → Holds t (x ∷ xs) → Entry (some t) (x ∷ xs)

pub push_entry-Entry :
    (x : ℕ) {o : Option (Stack ℕ)} {xs : List ℕ}
    → Entry o xs
    → (t : Stack ℕ) × (push_entry x o ≡ some t) × Entry (some t) (x ∷ xs)
unfolding push_entry
push_entry-Entry x absent =
    let (t, e, h) = push_stack-Holds x init_stack [] Holds-init in (t, e, present h)
push_entry-Entry x (present {t} {x = y} {xs} h) =
    let (t', e, h') = push_stack-Holds x t (y ∷ xs) h in (t', e, present h')

pub left-Entry :
    (t : Stack ℕ) (xs : List ℕ)
    → Holds t xs
    → Entry (if get_stack_size t == 0 then none else some t) xs
unfolding get_stack_size
left-Entry t [] h =
    subst (λ b. Entry (if b then none else some t) []) (sym (is_zero t.len h.size)) absent
  where
    is_zero : (n : ℕ) → n ≡ 0 → (n == 0) ≡ true
    is_zero n e = ground (arith, e)
left-Entry t (x ∷ xs) h =
    subst (λ b. Entry (if b then none else some t) (x ∷ xs))
      (sym (not_zero t.len (length xs) h.size)) (present h)
  where
    not_zero : (n m : ℕ) → n ≡ suc m → (n == 0) ≡ false
    not_zero n m e = ground (arith, e)

pub pop_entry-Entry :
    (x : ℕ) (xs : List ℕ) (o : Option (Stack ℕ))
    → Entry o (x ∷ xs)
    → (e : Option (Stack ℕ)) × (pop_entry o ≡ some (record { value = x; entry = e })) × Entry e xs
unfolding pop_entry
pop_entry-Entry _ _ _ (present {t} {x} {xs} h) =
    let (t', e, h') = (pop_stack-Holds t x xs h).1 in
    (if get_stack_size t' == 0 then none else some t', ap popped e, left-Entry t' xs h')

pub set_at_same : {A : Type 0} (k : ℕ) (v : A) (f : ℕ → A) → set_at k v f k ≡ v
set_at_same k v f = ap (λ b. if b then v else f k) (==_refl k)

pub set_at_other :
    {A : Type 0} (k j : ℕ) (v : A) (f : ℕ → A) → (j == k) ≡ false → set_at k v f j ≡ f j
set_at_other k j v f h = ap (λ b. if b then v else f j) h
