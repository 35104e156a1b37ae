-- ===== src/Paths.antt =====
-- Itcl_ParseNamespPath of generic/itclUtil.c: the head and the tail of a name with `::`. Pointers into
-- the copied name are indices.
pub mod Slices
pub mod Scan
pub mod Split
use itcl.Prelude.{
  ℕ, zero, suc, ◌+◌, Bool, true, false, ◌&&◌, Option, none, some, List, [], ◌∷◌, ◌==◌,
  if◌then◌else◌, length, get_elem?, take,
}
use itcl.Prelude.Bytes.{Bytes}

-- `*p == ':'` at an index.
abbrev pub is_colon : Option ℕ → Bool
is_colon none = false
is_colon (some c) = c == b':'

abbrev pub colon_at : Bytes → ℕ → Bool
colon_at name i = is_colon (get_elem? name i)

abbrev pub drop {ℓ} : {A : Type ℓ} → ℕ → List A → List A
drop zero xs = xs
drop (suc n) [] = []
drop (suc n) (x ∷ xs) = drop n xs

-- `while (--sep > newname)`: the index at which the loop breaks, if it does.
unfoldable pub find_sep : Bytes → ℕ → Option ℕ
find_sep name zero = none
find_sep name (suc zero) = none
find_sep name (suc (suc k)) =
    let rest = find_sep name (suc k) in
    if colon_at name (suc k) && colon_at name k then some (suc k) else rest

-- `while (sep > newname && *(sep-1) == ':') sep--;`
unfoldable pub back_up : Bytes → ℕ → ℕ
back_up name zero = zero
back_up name (suc k) = let rest = back_up name k in if colon_at name k then rest else suc k

pub record NamespPath : Type 0 where
  pub head : Option Bytes
  pub tail : Bytes

unfoldable pub path_at : Bytes → Option ℕ → NamespPath
unfolding back_up
path_at name none = record { head = none; tail = name }
path_at name (some sep) = record {
  head = some (take (back_up name sep) name);
  tail = drop (sep + 1) name;
}

unfoldable pub parse_namesp_path : Bytes → NamespPath
unfolding path_at find_sep
parse_namesp_path name = path_at name (find_sep name (length name))
