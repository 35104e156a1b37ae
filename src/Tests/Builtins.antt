-- ===== src/Tests/Builtins.antt =====
-- The builtin methods on the hierarchy of Tests/Hierarchies.antt.
use itcl.Prelude.{◌≡◌, refl, true, none, some, [], ◌∷◌, arith, if◌then◌else◌}
use itcl.Prelude.Bytes.{codes, name_eq}
use itcl.Classes.{find_entry}
use itcl.Chain.{chain_cmd, name_index, invoke}
use itcl.Chain.Next.{chain_cmd-next}
use itcl.Paths.{parse_namesp_path}
use itcl.Isa.{FindClass}
use itcl.Tests.Hierarchies.{info, show_base, left_order}

-- In `Left`, `chain` goes on to the function of `Base`.
chain_cmd-next_example :
    chain_cmd info 3 true
      (some (record { icls = 2; object_class = some 2 }))
      (some (record { words = codes "left" ∷ codes "show" ∷ []; has_client_data = true }))
    ≡ invoke show_base
unfolding parse_namesp_path name_index find_entry
chain_cmd-next_example =
    chain_cmd-next info 3 true 2 (some 2)
      (record { words = codes "left" ∷ codes "show" ∷ []; has_client_data = true }) (codes "show")
      [] (1 ∷ []) left_order refl refl (omega arith) refl

-- Only `Base` is known by its name.
abbrev find_base : FindClass
find_base name i = (i, if name_eq name (codes "Base") then some 1 else none)
