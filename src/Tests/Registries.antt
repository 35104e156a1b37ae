-- ===== src/Tests/Registries.antt =====
-- Runs of the registry of generic/itclLinkage.c and of the counted data of generic/itclUtil.c.
use itcl.Prelude.{List, ◌≡◌, refl, none, some, [], ◌∷◌, if◌then◌else◌, ◌==◌, ◌&&◌}
use itcl.Prelude.Bytes.{codes, name_eq}
use itcl.Linkage.{find_c, free_c, register_c, register_obj_c}
use itcl.Linkage.Accounts.{
  Request, arg_style, obj_style, count, run, accepted, no_procs, register, registry,
  free_c-accounts,
}
use itcl.Linkage.Finding.{accepts, name_of, redefined, find_c-register}
use itcl.Memory.{Memory}
use itcl.Memory.Claims.{preserve, release, claims, IsFreed, claims-IsFreed}

abbrev requests : List Request
requests =
    arg_style (codes "a") (some 1) 10 (some 7)
    ∷ obj_style (codes "a") (some 2) 20 (some 7)
    ∷ arg_style (codes "a") (some 3) 30 (some 7)
    ∷ obj_style (codes "b") none 40 (some 7)
    ∷ []

free_c-accounts_example :
    count (7, 20) (free_c (run requests no_procs)).deleted
    ≡ count (7, 20) (accepted requests no_procs)
free_c-accounts_example = free_c-accounts (7, 20) requests

deleted_once : (free_c (run requests no_procs)).deleted ≡ (7, 10) ∷ (7, 20) ∷ []
unfolding free_c register_c register_obj_c
deleted_once = refl

abbrev second : Request
second = obj_style (codes "a") (some 2) 20 none

find_c-register_example :
    find_c (codes "a") (registry (register second (run requests no_procs))) ≡ (
      if accepts second (find_c (name_of second) (run requests no_procs))
        && name_eq (name_of second) (codes "a")
      then redefined second (find_c (codes "a") (run requests no_procs))
      else find_c (codes "a") (run requests no_procs))
find_c-register_example = find_c-register second (codes "a") (run requests no_procs)

-- One block at address 5, with a free procedure and no claim.
abbrev one_block : Memory
one_block = record {
  blocks = λ q. if q == 5 then some (record { free_proc = some 3; ref_count = 0 }) else none;
  next = 6;
  called = [];
}

claims-IsFreed_example :
    (m' : Memory) × (claims 5 (preserve ∷ preserve ∷ release ∷ release ∷ []) one_block ≡ some m')
    × IsFreed 5 3 one_block m'
claims-IsFreed_example =
    claims-IsFreed 5 3 0 preserve (preserve ∷ release ∷ release ∷ []) one_block refl refl
