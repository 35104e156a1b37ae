-- ===== src/Paths/Split.antt =====
-- Where Itcl_ParseNamespPath of generic/itclUtil.c splits a name.
use itcl.Prelude.{
  ℕ, suc, ◌+◌, ◌-◌, ◌≡◌, ap, ◌∙◌, sym, ◌<◌, ◌≤◌, true, false, Option, none, some, ◌++◌, length,
  take, replicate, arith, inl, inr, compare-cases, length-take,
}
use itcl.Prelude.Bytes.{Bytes}
use itcl.Paths.{colon_at, drop, back_up, NamespPath, path_at, parse_namesp_path}
use itcl.Paths.Slices.{
  pair_at, colon_at-end, colon_at-drop, colon_at-take, take-drop, colons-drop, drop-drop,
}
use itcl.Paths.Scan.{IsSep, IsBack, back_up-IsBack, Finds, nowhere, somewhere, find_sep-Finds}

-- What a parse says of the name.
pub data Splits (name : Bytes) : NamespPath → Type 0 where
  plain : ((k : ℕ) → pair_at name k ≡ false) → Splits name (record { head = none; tail = name })
  split :
      (head tail : Bytes) (n : ℕ)
      → name ≡ head ++ (replicate (n + 2) b':' ++ tail)
      → ((k : ℕ) → length head ≡ k + 1 → colon_at head k ≡ false)
      → colon_at tail 0 ≡ false
      → ((k : ℕ) → pair_at tail k ≡ false)
      → Splits name (record { head = some head; tail = tail })

pair_at-end : (name : Bytes) (k : ℕ) → length name ≤ k + 1 → pair_at name k ≡ false
pair_at-end name k h = ground (arith, colon_at-end name (suc k) (omega arith))

-- The run of colons that ends at the separator has at least two.
run-bound : (name : Bytes) (n s e : ℕ) → IsSep name n s → IsBack name s e → e < s
run-bound name n s e r b = elim (compare-cases e s) [
  | inl t ↦ t
  | inr (inl t) ↦
      let p : s ≡ s - 1 + 1 = omega (arith, r.positive) in
      absurd (ground (arith, r.before (s - 1) p, b.stop (s - 1) (t ∙ p)))
  | inr (inr t) ↦ absurd (omega (arith, b.bound))
]

run-colons :
    (name : Bytes) (n s e k : ℕ)
    → IsSep name n s
    → IsBack name s e
    → e + k < s + 1
    → colon_at (drop e name) k ≡ true
run-colons name n s e k r b l = colon_at-drop e k name ∙ elim (compare-cases (e + k) s) [
  | inl t ↦ b.colons (e + k) (omega arith) t
  | inr (inl t) ↦ ap (colon_at name) t ∙ r.colon
  | inr (inr t) ↦ absurd (omega arith)
]

run_end : (s e : ℕ) → e < s → e + (s - e - 1 + 2) ≡ s + 1
run_end s e l = omega arith

-- No pair of colons stands behind the separator.
after-pair : (name : Bytes) (s k : ℕ) → IsSep name (length name) s → s ≤ k → pair_at name k ≡ false
after-pair name s k r l = elim (compare-cases (k + 1) (length name)) [
  | inl t ↦ r.last k l t
  | inr (inl t) ↦ pair_at-end name k (omega arith)
  | inr (inr t) ↦ pair_at-end name k (omega arith)
]

add_zero : (s : ℕ) → s + 1 + 0 ≡ suc s
add_zero s = omega arith

add_suc : (s k : ℕ) → s + 1 + suc k ≡ suc (s + 1 + k)
add_suc s k = omega arith

tail-first :
    (name : Bytes) (s : ℕ) → IsSep name (length name) s → colon_at (drop (s + 1) name) 0 ≡ false
tail-first name s r =
    colon_at-drop (s + 1) 0 name
    ∙ (ap (colon_at name) (add_zero s)
        ∙ ground (arith, r.colon, after-pair name s s r (omega arith)))

tail-pairs :
    (name : Bytes) (s k : ℕ) → IsSep name (length name) s → pair_at (drop (s + 1) name) k ≡ false
tail-pairs name s k r = ground (
  arith,
  colon_at-drop (s + 1) k name,
  colon_at-drop (s + 1) (suc k) name,
  ap (colon_at name) (add_suc s k),
  after-pair name s (s + 1 + k) r (omega arith),
)

path_at-Splits :
    (name : Bytes) (o : Option ℕ) → Finds name (length name) o → Splits name (path_at name o)
unfolding path_at
path_at-Splits name none (nowhere f) = plain (λ k. elim (compare-cases (k + 1) (length name)) [
  | inl t ↦ f k t
  | inr (inl t) ↦ pair_at-end name k (omega arith)
  | inr (inr t) ↦ pair_at-end name k (omega arith)
])
path_at-Splits name (some s) (somewhere s' r) =
    let e = back_up name s in
    let b = back_up-IsBack name s in
    let l = run-bound name (length name) s e r b in
    split (take e name) (drop (s + 1) name) (s - e - 1)
      (take-drop e name
        ∙ ap (λ ys. take e name ++ ys)
            (colons-drop (s - e - 1 + 2) (drop e name)
                (λ k u. run-colons name (length name) s e k r b (omega arith))
              ∙ ap (λ ys. replicate (s - e - 1 + 2) b':' ++ ys)
                  (drop-drop e (s - e - 1 + 2) name ∙ ap (λ m. drop m name) (run_end s e l))))
      (λ k q.
        let e_eq : e ≡ k + 1 = sym (length-take e name (omega (arith, r.bound))) ∙ q in
        colon_at-take e k name (omega arith) ∙ b.stop k e_eq)
      (tail-first name s r) (λ k. tail-pairs name s k r)

-- Itcl_ParseNamespPath returns the whole name as the tail and no head if the name has no `::`;
-- otherwise the name is the head, at least two colons, and the tail, where the head does not end in a
-- colon, and the tail has no `::` and does not begin with a colon.
pub parse_namesp_path-Splits : (name : Bytes) → Splits name (parse_namesp_path name)
unfolding parse_namesp_path
parse_namesp_path-Splits name = path_at-Splits name _ (find_sep-Finds name (length name))
