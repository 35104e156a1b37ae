-- ===== src/Prelude/Bytes.antt =====
-- C strings as lists of byte values, without the terminating zero.
use Prim.Native.Char.{code}
use Prim.Native.String.{String}
use Prim.Native.Nat.{ℕ}
use mathlib.Core.Path.{◌≡◌, refl}
use mathlib.Core.Logic.{◌↔◌}
use mathlib.Core.Bool.{Bool, true, false, ◌&&◌}
use mathlib.Core.List.{List, [], ◌∷◌}
use native.Mathlib.Omega.{arith}
use itcl.Prelude.Tests.{◌==◌}

abbrev pub Bytes : Type 0
Bytes = List ℕ

-- The bytes of an ASCII literal.
abbrev pub codes : String → Bytes
codes String.[] = []
codes (String.◌∷◌ c s) = code c ∷ codes s

-- `strcmp(a, b) == 0`
abbrev pub name_eq : Bytes → Bytes → Bool
name_eq [] [] = true
name_eq [] (y ∷ ys) = false
name_eq (x ∷ xs) [] = false
name_eq (x ∷ xs) (y ∷ ys) = (x == y) && name_eq xs ys

pub name_eq_refl : (a : Bytes) → name_eq a a ≡ true
name_eq_refl [] = refl
name_eq_refl (x ∷ xs) = ground (arith, name_eq_refl xs)

pub eq_of_name_eq : (a b : Bytes) → name_eq a b ≡ true → a ≡ b
eq_of_name_eq [] [] h = refl
eq_of_name_eq [] (y ∷ ys) h = ground arith
eq_of_name_eq (x ∷ xs) [] h = ground arith
eq_of_name_eq (x ∷ xs) (y ∷ ys) h = ground (arith, eq_of_name_eq xs ys)

pub name_eq_iff : (a b : Bytes) → (name_eq a b ≡ true) ↔ (a ≡ b)
name_eq_iff a b = (eq_of_name_eq a b, λ e. ground (arith, name_eq_refl a))
