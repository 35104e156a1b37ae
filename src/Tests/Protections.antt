-- ===== src/Tests/Protections.antt =====
-- A run of the protection commands of generic/itclParse.c.
use itcl.Prelude.{ℕ, ◌≡◌, refl, some, List, [], ◌∷◌, ◌+◌}
use itcl.Prelude.Bytes.{Bytes, codes}
use itcl.Protection.{Parsing, Result, class_protection_cmd}

-- A script that sets the level to private, counts its runs, and ends with `break`.
abbrev script : Bytes → Parsing ℕ → Result ℕ
script w s = record { code = 3; state = record { protection = 3; other = s.other + 1 } }

abbrev command : List Bytes → Parsing ℕ → Result ℕ
command ws s = record { code = 0; state = s }

abbrev in_body : Parsing ℕ
in_body = record { protection = 4; other = 0 }

break_is_error :
    class_protection_cmd script command 1 (codes "break" ∷ []) in_body
    ≡ some (record { code = 1; state = record { protection = 4; other = 1 } })
unfolding class_protection_cmd
break_is_error = refl
