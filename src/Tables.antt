-- ===== src/Tables.antt =====
-- The method table of generic/itclClass.c, which `Itcl_BuildVirtualTables` fills for a class: every
-- name under which a member function can be called from the class, with the function meant.
pub mod Lookup
pub mod Build
use itcl.Prelude.{ℕ, Bool, true, false, Option, none, some, List, [], ◌∷◌, ◌++◌, if◌then◌else◌}
use itcl.Prelude.Bytes.{Bytes, codes}
use itcl.Classes.{ClassId, MemberFunc, Table, find_entry, Class, Info, update, bases_of}
use itcl.Hierarchy.{Round, go, Walk, done, fault, out_of_fuel, walk_class}

abbrev pub sep : Bytes
sep = codes "::"

-- `func`, `class::func`, `namesp1::class::func`, and so on, up to the global namespace.
unfoldable pub qualified_names : Bytes → List Bytes → List Bytes
qualified_names name [] = name ∷ []
qualified_names name (ns ∷ path) = name ∷ qualified_names (ns ++ (sep ++ name)) path

module _ {V : Type 0} where
  -- `Tcl_CreateHashEntry`, and the value set only if the entry is new.
  insert_new : Bytes → V → Table V → Table V
  insert_new k v t = elim (find_entry k t) [ none ↦ t ++ (k, v) ∷ [] | some _ ↦ t ]

  insert_names : V → List Bytes → Table V → Table V
  unfolding insert_new
  insert_names v [] t = t
  insert_names v (k ∷ ks) t = insert_names v ks (insert_new k v t)

  -- The loop over one hash table of definitions.
  pub insert_functions : List Bytes → Table V → Table V → Table V
  unfolding insert_names qualified_names
  insert_functions path [] t = t
  insert_functions path ((k, v) ∷ fs) t =
      insert_functions path fs (insert_names v (qualified_names k path) t)

  pub insert_delegated : Table V → Table V → Table V
  unfolding insert_new
  insert_delegated [] t = t
  insert_delegated ((k, v) ∷ fs) t = insert_delegated fs (insert_new k v t)

-- The rounds of the two loops over the hierarchy.
pub add_functions : Info → ClassId → Table MemberFunc → Round (Table MemberFunc)
unfolding insert_functions
add_functions i c t = go (insert_functions (i.classes c).ns_path (i.classes c).functions t)

pub add_delegated : Info → ClassId → Table ℕ → Round (Table ℕ)
unfolding insert_delegated
add_delegated i c t = go (insert_delegated (i.classes c).delegated_functions t)

finish_tables : ClassId → Info → Table MemberFunc → Walk (Table ℕ) → Walk Info
finish_tables icls i cmds (done dels) =
    done (update i icls (λ k. record k { resolve_cmds = cmds; delegated_functions = dels }))
finish_tables icls i cmds fault = fault
finish_tables icls i cmds out_of_fuel = out_of_fuel

build_with : ℕ → ClassId → Info → Walk (Table MemberFunc) → Walk Info
unfolding finish_tables
build_with fuel icls i (done cmds) =
    finish_tables icls i cmds
      (walk_class (bases_of i) (add_delegated i) fuel icls (i.classes icls).delegated_functions)
build_with fuel icls i fault = fault
build_with fuel icls i out_of_fuel = out_of_fuel

-- The old table is cleared, so the loop starts from the empty one.
unfoldable pub build_virtual_tables : ℕ → ClassId → Info → Walk Info
unfolding build_with
build_virtual_tables fuel icls i =
    build_with fuel icls i (walk_class (bases_of i) (add_functions i) fuel icls [])
