-- ===== src/Paths/Slices.antt =====
-- The colons of a name and of its parts, for generic/itclUtil.c.
use itcl.Prelude.{
  ℕ, zero, suc, ◌+◌, ◌≡◌, refl, ap, ◌∙◌, sym, ◌<◌, ◌≤◌, Bool, true, false, ◌&&◌, some, [], ◌∷◌,
  ◌++◌, length, take, replicate, arith,
}
use itcl.Prelude.Bytes.{Bytes}
use itcl.Paths.{is_colon, colon_at, drop}

-- Two colons in a row at an index.
abbrev pub pair_at : Bytes → ℕ → Bool
pair_at name k = colon_at name k && colon_at name (suc k)

pub colon_at-end : (name : Bytes) (k : ℕ) → length name ≤ k → colon_at name k ≡ false
colon_at-end [] k h = refl
colon_at-end (x ∷ xs) zero h = absurd (omega arith)
colon_at-end (x ∷ xs) (suc k) h = colon_at-end xs k (omega arith)

suc_add : (m k : ℕ) → suc (m + k) ≡ suc m + k
suc_add m k = omega arith

pub colon_at-drop : (m k : ℕ) (name : Bytes) → colon_at (drop m name) k ≡ colon_at name (m + k)
colon_at-drop zero k name = ap (colon_at name) (omega arith)
colon_at-drop (suc m) k [] = refl
colon_at-drop (suc m) k (x ∷ xs) = colon_at-drop m k xs ∙ ap (colon_at (x ∷ xs)) (suc_add m k)

pub colon_at-take : (e k : ℕ) (name : Bytes) → k < e → colon_at (take e name) k ≡ colon_at name k
colon_at-take zero k name h = absurd (omega arith)
colon_at-take (suc e) k [] h = refl
colon_at-take (suc e) zero (x ∷ xs) h = refl
colon_at-take (suc e) (suc k) (x ∷ xs) h = colon_at-take e k xs (omega arith)

pub take-drop : (e : ℕ) (name : Bytes) → name ≡ take e name ++ drop e name
take-drop zero name = refl
take-drop (suc e) [] = refl
take-drop (suc e) (x ∷ xs) = ap (λ ys. x ∷ ys) (take-drop e xs)

is_colon_eq : (x : ℕ) → is_colon (some x) ≡ true → x ≡ b':'
is_colon_eq x h = ground (arith, h)

pub suc_inj : (k s : ℕ) → suc s ≡ k + 1 → k ≡ s
suc_inj k s q = omega arith

-- Colons from an index on.
pub colons-drop :
    (m : ℕ) (name : Bytes)
    → ((k : ℕ) → k < m → colon_at name k ≡ true)
    → name ≡ replicate m b':' ++ drop m name
colons-drop zero name h = refl
colons-drop (suc m) [] h = absurd (ground (arith, h 0 (omega arith)))
colons-drop (suc m) (x ∷ xs) h =
    ap (λ c. c ∷ xs) (is_colon_eq x (h 0 (omega arith)))
    ∙ ap (λ ys. b':' ∷ ys) (colons-drop m xs (λ k l. h (suc k) (omega arith)))

zero_add : (m : ℕ) → m ≡ zero + m
zero_add m = omega arith

drop_nil : (m : ℕ) → drop {A = ℕ} m [] ≡ []
drop_nil zero = refl
drop_nil (suc m) = refl

pub drop-drop : (e m : ℕ) (name : Bytes) → drop m (drop e name) ≡ drop (e + m) name
drop-drop zero m name = ap (λ k. drop k name) (zero_add m)
drop-drop (suc e) m [] = drop_nil m ∙ sym (drop_nil (suc e + m))
drop-drop (suc e) m (x ∷ xs) = drop-drop e m xs ∙ ap (λ k. drop k (x ∷ xs)) (suc_add e m)
