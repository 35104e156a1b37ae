-- ===== src/Tests/Scopes.antt =====
-- Scoped commands, with a small language of lists: words other than `namespace` and `inscope` have
-- their characters moved up by 200 in a list.
use mathlib.Core.Path.{subst}
use itcl.Prelude.{
  ℕ, ◌+◌, ◌-◌, ◌≡◌, refl, ap, ◌∙◌, Bool, true, false, ◌||◌, none, some, List, [], ◌∷◌, ◌++◌, map,
  arith, ◌==◌, ltb, if◌then◌else◌, has, Bool-cases, inl, inr, length, replicate, length-replicate,
  sym,
}
use itcl.Prelude.Bytes.{Bytes, codes, name_eq, eq_of_name_eq}
use itcl.Classes.{NsId}
use itcl.Scoped.{
  Tcl, namespace_word, inscope_word, merge, decode_scoped_command, scoped, fault, code_cmd,
  command_word,
}
use itcl.Scoped.Roundtrip.{code_cmd-decodes, Selects}

abbrev up : ℕ → ℕ
up x = x + 200

abbrev down : ℕ → ℕ
down x = if ltb x 200 then x else x - 200

abbrev is_plain : Bytes → Bool
is_plain w = name_eq w namespace_word || name_eq w inscope_word

abbrev shifted : Bytes → Bytes
shifted w = if is_plain w then w else map up w

-- The words between the spaces.
abbrev cons_first : ℕ → List Bytes → List Bytes
cons_first x [] = (x ∷ []) ∷ []
cons_first x (w ∷ ws) = (x ∷ w) ∷ ws

abbrev pieces : Bytes → List Bytes
pieces [] = [] ∷ []
pieces (x ∷ xs) = let rest = pieces xs in if x == 32 then [] ∷ rest else cons_first x rest

abbrev small_tcl : Tcl
small_tcl = record {
  element = shifted;
  split_list = λ s. some (map (map down) (pieces s));
  find_namespace = λ s. some (length s - 2);
  full_name = λ n. codes "::" ++ replicate n b'a';
  global_namespace = 0;
}

pieces_space : (xs r : Bytes) → has 32 xs ≡ false → pieces (xs ++ (32 ∷ r)) ≡ xs ∷ pieces r
pieces_space [] r h = refl
pieces_space (x ∷ xs) r h =
    ap (λ b. if b then [] ∷ pieces (xs ++ (32 ∷ r)) else cons_first x (pieces (xs ++ (32 ∷ r))))
      (not_space x xs h)
    ∙ ap (cons_first x) (pieces_space xs r (ground arith))
  where
    not_space : (x : ℕ) (xs : Bytes) → has 32 (x ∷ xs) ≡ false → (x == 32) ≡ false
    not_space x xs h = ground arith

pieces_last : (xs : Bytes) → has 32 xs ≡ false → pieces xs ≡ xs ∷ []
pieces_last [] h = refl
pieces_last (x ∷ xs) h =
    ap (λ b. if b then [] ∷ pieces xs else cons_first x (pieces xs)) (not_space x xs h)
    ∙ ap (cons_first x) (pieces_last xs (ground arith))
  where
    not_space : (x : ℕ) (xs : Bytes) → has 32 (x ∷ xs) ≡ false → (x == 32) ≡ false
    not_space x xs h = ground arith

up_no_space : (w : Bytes) → has 32 (map up w) ≡ false
up_no_space [] = refl
up_no_space (x ∷ xs) = ground (arith, up_no_space xs)

down-up : (x : ℕ) → down (up x) ≡ x
down-up x = ground arith

map-down-up : (w : Bytes) → map down (map up w) ≡ w
map-down-up [] = refl
map-down-up (x ∷ xs) =
    ap (λ y. y ∷ map down (map up xs)) (down-up x) ∙ ap (λ ys. x ∷ ys) (map-down-up xs)

-- A plain word is one of the two.
by_word :
    (P : Bytes → Type 0) → P namespace_word → P inscope_word → (w : Bytes) → is_plain w ≡ true → P w
by_word P a b w h = elim (Bool-cases (name_eq w namespace_word)) [
  | inl e ↦ subst P (sym (eq_of_name_eq w namespace_word e)) a
  | inr e ↦ subst P (sym (eq_of_name_eq w inscope_word (ground arith))) b
]

shifted_no_space : (w : Bytes) → has 32 (shifted w) ≡ false
shifted_no_space w = elim (Bool-cases (is_plain w)) [
  | inl e ↦
      ap (λ b. has 32 (if b then w else map up w)) e ∙ by_word (λ v. has 32 v ≡ false) refl refl w e
  | inr e ↦ ap (λ b. has 32 (if b then w else map up w)) e ∙ up_no_space w
]

map-shifted : (w : Bytes) → map down (shifted w) ≡ w
map-shifted w = elim (Bool-cases (is_plain w)) [
  | inl e ↦
      ap (λ b. map down (if b then w else map up w)) e ∙ by_word (λ v. map down v ≡ v) refl refl w e
  | inr e ↦ ap (λ b. map down (if b then w else map up w)) e ∙ map-down-up w
]

small_tcl-splits :
    (ns cmd : Bytes)
    → small_tcl.split_list (merge small_tcl (namespace_word ∷ inscope_word ∷ ns ∷ cmd ∷ []))
      ≡ some (namespace_word ∷ inscope_word ∷ ns ∷ cmd ∷ [])
unfolding merge
small_tcl-splits ns cmd =
    let last =
      ap (λ ps. some (namespace_word ∷ inscope_word ∷ map (map down) ps))
        (pieces_space (shifted ns) (shifted cmd) (shifted_no_space ns)
          ∙ ap (λ ps. shifted ns ∷ ps) (pieces_last (shifted cmd) (shifted_no_space cmd))) in
    last
    ∙ ap (λ w. some (namespace_word ∷ inscope_word ∷ w ∷ map down (shifted cmd) ∷ []))
        (map-shifted ns)
    ∙ ap (λ w. some (namespace_word ∷ inscope_word ∷ ns ∷ w ∷ [])) (map-shifted cmd)

small_tcl-finds : (n : NsId) → small_tcl.find_namespace (small_tcl.full_name n) ≡ some n
small_tcl-finds n = ap some (omega (arith, length-replicate {A = ℕ} n b'a'))

code_cmd-decodes_example :
    (m : NsId) × (cmd : List Bytes) × Selects small_tcl 3
      (codes "-namespace" ∷ codes "::a" ∷ codes "--" ∷ codes "-x" ∷ codes "y" ∷ [])
      m
      cmd
    × (decode_scoped_command small_tcl (
          merge small_tcl (
            namespace_word
            ∷ inscope_word
            ∷ codes "::a"
            ∷ merge small_tcl (codes "-x" ∷ codes "y" ∷ [])
            ∷ []))
        ≡ scoped m (command_word small_tcl cmd))
unfolding code_cmd
code_cmd-decodes_example =
    code_cmd-decodes small_tcl small_tcl-splits refl refl small_tcl-finds refl 3
      (codes "-namespace") (codes "::a" ∷ codes "--" ∷ codes "-x" ∷ codes "y" ∷ [])
      (merge small_tcl (
        namespace_word
        ∷ inscope_word
        ∷ codes "::a"
        ∷ merge small_tcl (codes "-x" ∷ codes "y" ∷ [])
        ∷ []))
      refl

-- An option -namespace at the end, behind another one, has no name: the code reads behind the words.
missing_namespace :
    code_cmd small_tcl 0 (codes "-namespace" ∷ codes "::" ∷ codes "-namespace" ∷ []) ≡ fault
unfolding code_cmd
missing_namespace = refl

-- A string that looks scoped, and is no list: the words are freed without having been set.
broken_list :
    decode_scoped_command
      (record small_tcl { split_list = λ s. none })
      (codes "namespace inscope {a")
    ≡ fault
unfolding decode_scoped_command
broken_list = refl
