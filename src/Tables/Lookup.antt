-- ===== src/Tables/Lookup.antt =====
-- What the method table finds: the definition in the most specific class.
use itcl.Prelude.{
  ◌≡◌, refl, sym, ap, ◌∙◌, inl, inr, Bool, true, false, ◌&&◌, ◌||◌, Option, none, some, List, [],
  ◌∷◌, ◌++◌, arith, ◌==◌, Option-cases, if◌then◌else◌,
}
use itcl.Prelude.Bytes.{Bytes, name_eq, name_eq_iff}
use itcl.Classes.{Table, find_entry}
use itcl.Tables.{sep, qualified_names, insert_new, insert_names, insert_functions, insert_delegated}

abbrev pub or_else {ℓ} : {A : Type ℓ} → Option A → Option A → Option A
or_else none b = b
or_else (some a) b = some a

-- The name contains `::`.
abbrev pub is_qualified : Bytes → Bool
is_qualified [] = false
is_qualified (c ∷ []) = false
is_qualified (c ∷ d ∷ cs) = (c == b':' && d == b':') || is_qualified (d ∷ cs)

pub is_qualified-sep : (ns name : Bytes) → is_qualified (ns ++ (sep ++ name)) ≡ true
is_qualified-sep [] name = refl
is_qualified-sep (c ∷ []) name = ground arith
is_qualified-sep (c ∷ d ∷ ns) name = ground (arith, is_qualified-sep (d ∷ ns) name)

pub or_else-none {ℓ} : {A : Type ℓ} (a : Option A) → a ≡ or_else a none
or_else-none none = refl
or_else-none (some a) = refl

pub or_else_assoc {ℓ} :
    {A : Type ℓ} (a b c : Option A) → or_else (or_else a b) c ≡ or_else a (or_else b c)
or_else_assoc none b c = refl
or_else_assoc (some a) b c = refl

module _ {V : Type 0} where
  pub find_entry-append :
      (k : Bytes) (t u : Table V)
      → find_entry k (t ++ u) ≡ or_else (find_entry k t) (find_entry k u)
  unfolding find_entry
  find_entry-append k [] u = refl
  find_entry-append k ((j, v) ∷ t) u = ground (arith, find_entry-append k t u)

  insert_fresh :
      (k : Bytes) (v : V) (t : Table V)
      → find_entry k t ≡ none
      → insert_new k v t ≡ t ++ (k, v) ∷ []
  unfolding insert_new
  insert_fresh k v t e = rw (e, insert_new)

  insert_known :
      (k : Bytes) (v w : V) (t : Table V) → find_entry k t ≡ some w → insert_new k v t ≡ t
  unfolding insert_new
  insert_known k v w t e = rw (e, insert_new)

  find_entry-insert_new :
      (k j : Bytes) (v : V) (t : Table V)
      → find_entry j (insert_new k v t)
        ≡ or_else (find_entry j t) (if name_eq k j then some v else none)
  unfolding find_entry
  find_entry-insert_new k j v t = elim (Option-cases (find_entry k t)) [
    | inl e ↦ rw (insert_fresh k v t e, find_entry-append j t ((k, v) ∷ []))
    | inr (w, e) ↦ rw (insert_known k v w t e) (known (name_eq k j) w e refl)
  ]
    where
      known :
          (b : Bool) (w : V)
          → find_entry k t ≡ some w
          → name_eq k j ≡ b
          → find_entry j t ≡ or_else (find_entry j t) (if b then some v else none)
      known false w e h = or_else-none (find_entry j t)
      known true w e h =
          let e' = ap (λ x. find_entry x t) (sym ((name_eq_iff k j).0 h)) ∙ e in rw e' refl

  -- The definitions under every name, in the order in which the loop meets them.
  abbrev pub named : V → List Bytes → Table V
  named v [] = []
  named v (k ∷ ks) = (k, v) ∷ named v ks

  abbrev pub candidates : List Bytes → Table V → Table V
  candidates path [] = []
  candidates path ((k, v) ∷ fs) = named v (qualified_names k path) ++ candidates path fs

  find_entry-insert_names :
      (v : V) (ks : List Bytes) (j : Bytes) (t : Table V)
      → find_entry j (insert_names v ks t) ≡ or_else (find_entry j t) (find_entry j (named v ks))
  unfolding insert_names find_entry
  find_entry-insert_names v [] j t = or_else-none (find_entry j t)
  find_entry-insert_names v (k ∷ ks) j t =
      ground
        (arith, find_entry-insert_names v ks j (insert_new k v t), find_entry-insert_new k j v t)

  pub find_entry-insert_functions :
      (path : List Bytes) (fs : Table V) (j : Bytes) (t : Table V)
      → find_entry j (insert_functions path fs t)
        ≡ or_else (find_entry j t) (find_entry j (candidates path fs))
  unfolding insert_functions find_entry
  find_entry-insert_functions path [] j t = or_else-none (find_entry j t)
  find_entry-insert_functions path ((k, v) ∷ fs) j t =
      find_entry-insert_functions path fs j (insert_names v (qualified_names k path) t)
      ∙ ap (λ o. or_else o (find_entry j (candidates path fs)))
          (find_entry-insert_names v (qualified_names k path) j t)
      ∙ or_else_assoc (find_entry j t) (find_entry j (named v (qualified_names k path)))
          (find_entry j (candidates path fs))
      ∙ ap (or_else (find_entry j t))
          (sym (find_entry-append j (named v (qualified_names k path)) (candidates path fs)))

  pub find_entry-insert_delegated :
      (fs : Table V) (j : Bytes) (t : Table V)
      → find_entry j (insert_delegated fs t) ≡ or_else (find_entry j t) (find_entry j fs)
  unfolding insert_delegated find_entry
  find_entry-insert_delegated [] j t = or_else-none (find_entry j t)
  find_entry-insert_delegated ((k, v) ∷ fs) j t =
      ground
        (arith, find_entry-insert_delegated fs j (insert_new k v t), find_entry-insert_new k j v t)
