-- ===== src/Tests/Paths.antt =====
-- Runs of Itcl_ParseNamespPath of generic/itclUtil.c.
use itcl.Prelude.{◌≡◌, refl, none, some}
use itcl.Prelude.Bytes.{codes}
use itcl.Paths.{parse_namesp_path}
use itcl.Paths.Split.{Splits, parse_namesp_path-Splits}

parse_namesp_path-Splits_example : Splits (codes "a::b:::c") (parse_namesp_path (codes "a::b:::c"))
parse_namesp_path-Splits_example = parse_namesp_path-Splits (codes "a::b:::c")

three_colons :
    parse_namesp_path (codes "a::b:::c") ≡ record { head = some (codes "a::b"); tail = codes "c" }
unfolding parse_namesp_path
three_colons = refl

global : parse_namesp_path (codes "::x") ≡ record { head = some (codes ""); tail = codes "x" }
unfolding parse_namesp_path
global = refl

no_head : parse_namesp_path (codes "a:b") ≡ record { head = none; tail = codes "a:b" }
unfolding parse_namesp_path
no_head = refl
