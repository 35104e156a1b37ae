-- ===== src/Tables/Build.antt =====
-- The table that `build_virtual_tables` leaves, against an independent search of the hierarchy.
use itcl.Prelude.{
  Bool, ◌||◌, ℕ, ◌<◌, ◌≡◌, refl, sym, ap, ◌∙◌, inl, inr, true, false, Option, none, some, List, [],
  ◌∷◌, ◌++◌, arith, ==_refl, Bool-cases, if◌then◌else◌, length,
}
use itcl.Prelude.Bytes.{Bytes, codes, name_eq, name_eq_iff}
use itcl.Classes.{ClassId, MemberFunc, Table, find_entry, Info, update, bases_of}
use itcl.Hierarchy.{done, go}
use itcl.Hierarchy.Order.{Preorder, Preorder-head}
use itcl.Hierarchy.Iteration.{run_over, walk_class-Preorder}
use itcl.Tables.{
  sep, qualified_names, insert_functions, insert_delegated, add_functions, add_delegated,
  build_virtual_tables,
}
use itcl.Tables.Lookup.{
  or_else, or_else_assoc, or_else-none, is_qualified, is_qualified-sep, named, candidates,
  find_entry-append, find_entry-insert_functions, find_entry-insert_delegated,
}

name_ne : (q j : Bytes) → is_qualified q ≡ true → is_qualified j ≡ false → name_eq q j ≡ false
name_ne q j hq hj = elim (Bool-cases (name_eq q j)) [
  | inl same ↦ absurd (clash (ap is_qualified ((name_eq_iff q j).0 same)))
  | inr differ ↦ differ
]
  where
    clash : is_qualified q ≡ is_qualified j → ⊥
    clash e = cc

module _ {V : Type 0} (j : Bytes) (simple : is_qualified j ≡ false) where
  find_entry-qualified :
      (v : V) (q : Bytes) (path : List Bytes)
      → is_qualified q ≡ true
      → find_entry j (named v (qualified_names q path)) ≡ none
  unfolding qualified_names find_entry
  find_entry-qualified v q [] h = rw (name_ne q j h simple)
  find_entry-qualified v q (ns ∷ path) h =
      rw (name_ne q j h simple)
        (find_entry-qualified v (ns ++ (sep ++ q)) path (is_qualified-sep ns q))

  find_entry-named :
      (v : V) (k : Bytes) (path : List Bytes)
      → find_entry j (named v (qualified_names k path)) ≡ (if name_eq k j then some v else none)
  unfolding qualified_names find_entry
  find_entry-named v k [] = refl
  find_entry-named v k (ns ∷ path) =
      rw (find_entry-qualified v (ns ++ (sep ++ k)) path (is_qualified-sep ns k))

  find_entry-candidates :
      (path : List Bytes) (fs : Table V) → find_entry j (candidates path fs) ≡ find_entry j fs
  unfolding find_entry
  find_entry-candidates path [] = refl
  find_entry-candidates path ((k, v) ∷ fs) =
      find_entry-append j (named v (qualified_names k path)) (candidates path fs)
      ∙ rw (find_entry-named v k path, find_entry-candidates path fs) (ground arith)

or_else_again : {A : Type 0} (a b : Option A) → or_else a (or_else a b) ≡ or_else a b
or_else_again none b = refl
or_else_again (some x) b = refl

-- The definitions of a list of classes under every name, class by class.
abbrev pub all_candidates : Info → List ClassId → Table MemberFunc
all_candidates i [] = []
all_candidates i (c ∷ cs) =
    candidates (i.classes c).ns_path (i.classes c).functions ++ all_candidates i cs

-- The definition of a function in the first class of a list that has one.
abbrev pub first_method : Info → List ClassId → Bytes → Option MemberFunc
first_method i [] name = none
first_method i (c ∷ cs) name =
    or_else (find_entry name (i.classes c).functions) (first_method i cs name)

abbrev pub first_delegated : Info → List ClassId → Bytes → Option ℕ
first_delegated i [] name = none
first_delegated i (c ∷ cs) name =
    or_else (find_entry name (i.classes c).delegated_functions) (first_delegated i cs name)

-- The name is that of the function, alone or behind the names of its class and of some of the
-- namespaces around it, from the inside out.
abbrev pub goes_by : Bytes → List Bytes → Bytes → Bool
goes_by name [] key = name_eq key name
goes_by name (ns ∷ path) key = name_eq key name || goes_by name path (ns ++ (codes "::" ++ key))

-- The first function of a table that goes by a name, and that of the first class with one.
abbrev pub first_in {ℓ} : {V : Type ℓ} → Bytes → List Bytes → List (Bytes × V) → Option V
first_in name path [] = none
first_in name path ((k, v) ∷ fs) =
    let later = first_in name path fs in if goes_by name path k then some v else later

abbrev pub first_called : Info → List ClassId → Bytes → Option MemberFunc
first_called i [] name = none
first_called i (c ∷ cs) name =
    or_else (first_in name (i.classes c).ns_path (i.classes c).functions) (first_called i cs name)

module _ {V : Type 0} (j : Bytes) where
  named-goes_by :
      (v : V) (k : Bytes) (path : List Bytes)
      → find_entry j (named v (qualified_names k path))
        ≡ (if goes_by j path k then some v else none)
  unfolding qualified_names find_entry
  named-goes_by v k [] = refl
  named-goes_by v k (ns ∷ path) = ground (arith, named-goes_by v (ns ++ (codes "::" ++ k)) path)

  candidates-first_in :
      (path : List Bytes) (fs : Table V) → find_entry j (candidates path fs) ≡ first_in j path fs
  unfolding find_entry
  candidates-first_in path [] = refl
  candidates-first_in path ((k, v) ∷ fs) =
      find_entry-append j (named v (qualified_names k path)) (candidates path fs)
      ∙ rw (named-goes_by v k path, candidates-first_in path fs) (ground arith)

all_candidates-first_called :
    (i : Info) (cs : List ClassId) (j : Bytes)
    → find_entry j (all_candidates i cs) ≡ first_called i cs j
unfolding find_entry
all_candidates-first_called i [] j = refl
all_candidates-first_called i (c ∷ cs) j =
    find_entry-append j (candidates (i.classes c).ns_path (i.classes c).functions)
      (all_candidates i cs)
    ∙ rw (
      candidates-first_in j (i.classes c).ns_path (i.classes c).functions,
      all_candidates-first_called i cs j,
    )

first_method-candidates :
    (i : Info) (cs : List ClassId) (j : Bytes)
    → is_qualified j ≡ false
    → find_entry j (all_candidates i cs) ≡ first_method i cs j
unfolding find_entry
first_method-candidates i [] j simple = refl
first_method-candidates i (c ∷ cs) j simple =
    find_entry-append j (candidates (i.classes c).ns_path (i.classes c).functions)
      (all_candidates i cs)
    ∙ rw (
      find_entry-candidates j simple (i.classes c).ns_path (i.classes c).functions,
      first_method-candidates i cs j simple,
    )

module _ (i : Info) where
  add_all : List ClassId → Table MemberFunc → Table MemberFunc
  add_all [] t = t
  add_all (c ∷ cs) t = add_all cs (insert_functions (i.classes c).ns_path (i.classes c).functions t)

  delegate_all : List ClassId → Table ℕ → Table ℕ
  delegate_all [] t = t
  delegate_all (c ∷ cs) t = delegate_all cs (insert_delegated (i.classes c).delegated_functions t)

  run_over-add_functions :
      (cs : List ClassId) (t : Table MemberFunc)
      → run_over (bases_of i) (add_functions i) cs t ≡ go (add_all cs t)
  unfolding run_over add_functions add_all
  run_over-add_functions [] t = refl
  run_over-add_functions (c ∷ cs) t =
      run_over-add_functions cs (insert_functions (i.classes c).ns_path (i.classes c).functions t)

  run_over-add_delegated :
      (cs : List ClassId) (t : Table ℕ)
      → run_over (bases_of i) (add_delegated i) cs t ≡ go (delegate_all cs t)
  unfolding run_over add_delegated delegate_all
  run_over-add_delegated [] t = refl
  run_over-add_delegated (c ∷ cs) t =
      run_over-add_delegated cs (insert_delegated (i.classes c).delegated_functions t)

  find_entry-add_all :
      (cs : List ClassId) (j : Bytes) (t : Table MemberFunc)
      → find_entry j (add_all cs t) ≡ or_else (find_entry j t) (find_entry j (all_candidates i cs))
  unfolding add_all find_entry
  find_entry-add_all [] j t = or_else-none (find_entry j t)
  find_entry-add_all (c ∷ cs) j t =
      let path = (i.classes c).ns_path in
      let fs = (i.classes c).functions in
      find_entry-add_all cs j (insert_functions path fs t)
      ∙ ap (λ o. or_else o (find_entry j (all_candidates i cs)))
          (find_entry-insert_functions path fs j t)
      ∙ or_else_assoc (find_entry j t) (find_entry j (candidates path fs))
          (find_entry j (all_candidates i cs))
      ∙ ap (or_else (find_entry j t))
          (sym (find_entry-append j (candidates path fs) (all_candidates i cs)))

  find_entry-delegate_all :
      (cs : List ClassId) (j : Bytes) (t : Table ℕ)
      → find_entry j (delegate_all cs t) ≡ or_else (find_entry j t) (first_delegated i cs j)
  unfolding delegate_all
  find_entry-delegate_all [] j t = or_else-none (find_entry j t)
  find_entry-delegate_all (c ∷ cs) j t =
      let fs = (i.classes c).delegated_functions in
      find_entry-delegate_all cs j (insert_delegated fs t)
      ∙ ap (λ o. or_else o (first_delegated i cs j)) (find_entry-insert_delegated fs j t)
      ∙ or_else_assoc (find_entry j t) (find_entry j fs) (first_delegated i cs j)

  -- What the tables of `icls` are after a rebuild over the order `out`.
  pub rebuilt : ClassId → List ClassId → Info
  rebuilt icls out = update i icls (λ k. record k {
    resolve_cmds = add_all out [];
    delegated_functions = delegate_all out (i.classes icls).delegated_functions;
  })

  -- A rebuild with more rounds than classes in the hierarchy ends, and changes two tables.
  pub build-rebuilt :
      (fuel : ℕ) (icls : ClassId) {out : List ClassId}
      → Preorder (bases_of i) (icls ∷ []) out
      → length out < fuel
      → build_virtual_tables fuel icls i ≡ done (rebuilt icls out)
  unfolding build_virtual_tables rebuilt
  build-rebuilt fuel icls {out} p lt = rw (
    walk_class-Preorder (bases_of i) (add_functions i) fuel icls [] p lt,
    run_over-add_functions out [],
    walk_class-Preorder (bases_of i) (add_delegated i) fuel icls
        (i.classes icls).delegated_functions p lt,
    run_over-add_delegated out (i.classes icls).delegated_functions,
  )

  -- In a hierarchy that ends, given more rounds than classes, the rebuild ends, and then a name, simple
  -- or qualified, finds the first function, in the order of the hierarchy, that has the name alone or
  -- behind the names of its class and of some of the namespaces around that, from the inside out.
  pub build-candidates :
      (fuel : ℕ) (icls : ClassId) (name : Bytes) {out : List ClassId}
      → Preorder (bases_of i) (icls ∷ []) out
      → length out < fuel
      → (i' : Info) × (build_virtual_tables fuel icls i ≡ done i')
        × (find_entry name (i'.classes icls).resolve_cmds ≡ first_called i out name)
  unfolding rebuilt update find_entry
  build-candidates fuel icls name {out} p lt = (
    rebuilt icls out,
    build-rebuilt fuel icls p lt,
    rw (==_refl icls) (find_entry-add_all out name [] ∙ all_candidates-first_called i out name),
  )

  module _ (icls : ClassId) (name : Bytes) (out : List ClassId) where
    pub methods-rebuilt :
        is_qualified name ≡ false
        → find_entry name ((rebuilt icls out).classes icls).resolve_cmds ≡ first_method i out name
    unfolding rebuilt update find_entry
    methods-rebuilt simple =
        rw (==_refl icls)
          (find_entry-add_all out name [] ∙ first_method-candidates i out name simple)

    pub delegated-rebuilt :
        Preorder (bases_of i) (icls ∷ []) out
        → find_entry name ((rebuilt icls out).classes icls).delegated_functions
          ≡ first_delegated i out name
    unfolding rebuilt update
    delegated-rebuilt p = rw (==_refl icls) (
        find_entry-delegate_all out name (i.classes icls).delegated_functions
        ∙ own_first (Preorder-head p))
      where
        own_first :
            (rest : List ClassId) × (out ≡ icls ∷ rest)
            → or_else
                (find_entry name (i.classes icls).delegated_functions)
                (first_delegated i out name)
              ≡ first_delegated i out name
        own_first (rest, e) = rw e (
            or_else_again (find_entry name (i.classes icls).delegated_functions)
              (first_delegated i rest name))

  -- A simple method name finds the definition of the most specific class that has one, and so does
  -- a delegated one.
  pub build-most_specific :
      (fuel : ℕ) (icls : ClassId) (name : Bytes) {out : List ClassId}
      → is_qualified name ≡ false
      → Preorder (bases_of i) (icls ∷ []) out
      → length out < fuel
      → (i' : Info) × (build_virtual_tables fuel icls i ≡ done i')
        × (find_entry name (i'.classes icls).resolve_cmds ≡ first_method i out name)
        × (find_entry name (i'.classes icls).delegated_functions ≡ first_delegated i out name)
  build-most_specific fuel icls name {out} simple p lt = (
    rebuilt icls out,
    build-rebuilt fuel icls p lt,
    methods-rebuilt icls name out simple,
    delegated-rebuilt icls name out p,
  )

-- A rebuild writes neither the inheritance of a class nor its heritage.
module _ (i : Info) (icls : ClassId) (out : List ClassId) (d : ClassId) where
  pub bases-rebuilt : ((rebuilt i icls out).classes d).bases ≡ (i.classes d).bases
  unfolding rebuilt update
  bases-rebuilt = ground arith

  pub heritage-rebuilt : ((rebuilt i icls out).classes d).heritage ≡ (i.classes d).heritage
  unfolding rebuilt update
  heritage-rebuilt = ground arith

  pub derived-rebuilt : ((rebuilt i icls out).classes d).derived ≡ (i.classes d).derived
  unfolding rebuilt update
  derived-rebuilt = ground arith

  pub flags-rebuilt : ((rebuilt i icls out).classes d).flags ≡ (i.classes d).flags
  unfolding rebuilt update
  flags-rebuilt = ground arith

  pub namespaces-rebuilt : (rebuilt i icls out).namespace_classes ≡ i.namespace_classes
  unfolding rebuilt update
  namespaces-rebuilt = refl
