-- ===== src/Tests/Lifecycles.antt =====
-- The lifecycle of an object of class 0, with the bases 1 and 2, at concrete inputs.
use itcl.Prelude.{zero, suc, ◌+◌, ◌≡◌, refl, Option, none, some, List, [], ◌∷◌, arith}
use itcl.Classes.{ClassId}
use itcl.Hierarchy.Order.{Preorder, none, one}
use itcl.Lifecycle.{ClassCode, Code, ok, error, done, fail, call}
use itcl.Lifecycle.Implicit.{IsPlain, plain_scripts}
use itcl.Lifecycle.Unwind
use itcl.Lifecycle.Objects.{Object, returned, create_object, delete_object, delete_command}
use itcl.Lifecycle.Creation.{create_object-Builds, create_object-fails, abandoned}
use itcl.Lifecycle.Deletion.{created, deleted, delete_object-Razes}
use itcl.Lifecycle.Failure.{
  undeleted, deleted_later, removed, delete_object-fails, delete_command-fails,
}
use itcl.Lifecycle.Once.{attempts-Once, attempt, attempts, delete, remove}

abbrev diamond_bases : ClassId → List ClassId
diamond_bases c = elim c [ zero ↦ 1 ∷ 2 ∷ [] | suc k ↦ [] ]

-- Classes that end their constructors and destructors as the two functions say.
abbrev pair_code : (ClassId → Option Code) → (ClassId → Option Code) → ClassId → ClassCode
pair_code runs over c = record {
  bases = diamond_bases c;
  name = 10 + c;
  init_code = done;
  constructor = plain_scripts (runs c);
  destructor = plain_scripts (over c);
}

abbrev all_ok : ClassId → Option Code
all_ok c = some ok

-- Class 2 has neither.
abbrev without_last : ClassId → Option Code
without_last c = elim c [ zero ↦ some ok | suc k ↦ elim k [ zero ↦ some ok | suc j ↦ none ] ]

-- Class 1 fails.
abbrev first_fails : ClassId → Option Code
first_fails c = elim c [ zero ↦ some ok | suc k ↦ elim k [ zero ↦ some error | suc j ↦ some ok ] ]

pair_code-IsPlain : (runs over : ClassId → Option Code) → IsPlain (pair_code runs over) runs
unfolding IsPlain
pair_code-IsPlain runs over c = (refl, refl)

pair_code-IsPlain' : (runs over : ClassId → Option Code) → Unwind.IsPlain (pair_code runs over) over
unfolding Unwind.IsPlain
pair_code-IsPlain' runs over c = refl

pair-Preorder : Preorder diamond_bases (0 ∷ []) (0 ∷ 1 ∷ 2 ∷ [])
pair-Preorder =
    one {below = 1 ∷ 2 ∷ []} (one {below = []} none (one {below = []} none none refl) refl) none
      refl

create_object-Builds_example :
    create_object (pair_code without_last all_ok) 6 0 ≡ returned ok (created 0 (0 ∷ 1 ∷ []))
create_object-Builds_example =
    create_object-Builds (pair_code without_last all_ok) without_last 6
      (pair_code-IsPlain without_last all_ok) pair-Preorder refl refl (omega arith)

create_object-fails_example :
    create_object (pair_code first_fails all_ok) 6 0
    ≡ returned error (abandoned 0 (1 ∷ 2 ∷ []) (2 ∷ 1 ∷ 0 ∷ []))
create_object-fails_example =
    create_object-fails (pair_code first_fails all_ok) 6 first_fails all_ok (0 ∷ []) (2 ∷ []) 0 1
      (pair_code-IsPlain first_fails all_ok) (pair_code-IsPlain' first_fails all_ok) pair-Preorder
      refl refl refl refl refl (omega arith)

delete_object-Razes_example :
    delete_object (pair_code all_ok without_last) 4 (created 0 [])
    ≡ returned ok (deleted 0 [] (1 ∷ 0 ∷ []))
delete_object-Razes_example =
    delete_object-Razes (pair_code all_ok without_last) without_last
      (pair_code-IsPlain' all_ok without_last) pair-Preorder refl refl 4 (omega arith) []

delete_object-fails_example :
    (delete_object (pair_code all_ok first_fails) 4 (created 0 [])
      ≡ returned error (undeleted 0 [] (1 ∷ 0 ∷ [])))
    × (delete_object (pair_code all_ok first_fails) 4 (undeleted 0 [] (1 ∷ 0 ∷ []))
        ≡ returned ok (deleted_later 0 [] (1 ∷ 0 ∷ [])))
delete_object-fails_example =
    delete_object-fails (pair_code all_ok first_fails) first_fails (0 ∷ []) (2 ∷ []) 1
      (pair_code-IsPlain' all_ok first_fails) pair-Preorder refl refl refl refl 4 (omega arith) []

delete_command-fails_example :
    delete_command (pair_code all_ok first_fails) 4 (created 0 [])
    ≡ returned ok (removed 0 [] (1 ∷ 0 ∷ []))
delete_command-fails_example =
    delete_command-fails (pair_code all_ok first_fails) first_fails (0 ∷ []) (2 ∷ []) 1
      (pair_code-IsPlain' all_ok first_fails) pair-Preorder refl refl refl refl 4 (omega arith) []

attempts-Once_example :
    (r : Code) × (o : Object) × (attempts
        (pair_code all_ok first_fails)
        4
        (delete ∷ remove ∷ [])
        (returned error (undeleted 0 [] (1 ∷ 0 ∷ [])))
      ≡ returned r o)
    × (o.destructed.ran ≡ 1 ∷ 0 ∷ [])
unfolding attempt delete_object
attempts-Once_example =
    attempts-Once (pair_code all_ok first_fails) 4 delete (delete ∷ remove ∷ []) 0 [] error
      (undeleted 0 [] (1 ∷ 0 ∷ [])) first_attempt
  where
    first_attempt :
        attempt (pair_code all_ok first_fails) 4 delete (created 0 [])
        ≡ returned error (undeleted 0 [] (1 ∷ 0 ∷ []))
    first_attempt = delete_object-fails_example.0

-- The two bases have one simple name, as `::a::Base` and `::b::Base` do.
abbrev twin_code : ClassId → ClassCode
twin_code c = record (pair_code all_ok all_ok c) { name = elim c [ zero ↦ 10 | suc k ↦ 11 ] }

-- Only the last base is constructed, and only the first is destructed.
twins_construct : create_object twin_code 6 0 ≡ returned ok (created 0 (0 ∷ 2 ∷ []))
unfolding create_object
twins_construct = refl

twins_destruct : delete_object twin_code 6 (created 0 []) ≡ returned ok (deleted 0 [] (1 ∷ 0 ∷ []))
unfolding delete_object
twins_destruct = refl

-- Class 0 calls the constructor of its first base in its init code: it runs once, and first.
abbrev explicit_code : ClassId → ClassCode
explicit_code c = record (pair_code all_ok all_ok c) {
  init_code = elim c [ zero ↦ call 1 done fail | suc k ↦ done ];
}

explicit_construct : create_object explicit_code 6 0 ≡ returned ok (created 0 (0 ∷ 2 ∷ 1 ∷ []))
unfolding create_object
explicit_construct = refl
