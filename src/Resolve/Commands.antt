-- ===== src/Resolve/Commands.antt =====
-- What the command resolver finds once the method table of the class is built.
use itcl.Prelude.{
  ℕ, ◌<◌, ◌≡◌, refl, ◌⊎◌, ap, ◌∙◌, Bool, inl, inr, true, false, Option, none, some, List, [], ◌∷◌,
  arith, ◌==◌, Bool-cases, length,
}
use itcl.Prelude.Bytes.{Bytes, codes, name_eq}
use itcl.Classes.{ClassId, NsId, MemberFunc, Class, Info, bases_of}
use itcl.Hierarchy.{done}
use itcl.Hierarchy.Order.{Preorder}
use itcl.Tables.{build_virtual_tables}
use itcl.Tables.Lookup.{is_qualified}
use itcl.Tables.Build.{
  first_method, first_delegated, rebuilt, build-rebuilt, methods-rebuilt, delegated-rebuilt,
  flags-rebuilt, namespaces-rebuilt,
}
use itcl.Resolve.{
  Resolution, ok, continue, type_builtins, is_one_of, Frames, entry_or, lookup_func,
  class_cmd_resolver, resolve_func,
}

abbrev pub method_or_continue : Option MemberFunc → Resolution
method_or_continue none = continue
method_or_continue (some im) = ok im.access_cmd

-- What a name means in a class whose hierarchy is `out`: the most specific definition, or, in an
-- extended class that delegates the name, the most specific `unknown`.
abbrev unknown_method : Bool → Option ℕ → Option MemberFunc → Option MemberFunc
unknown_method true (some _) unknown = unknown
unknown_method true none unknown = none
unknown_method false delegated unknown = none

abbrev own_or_unknown : Option MemberFunc → Bool → Option ℕ → Option MemberFunc → Option MemberFunc
own_or_unknown (some im) extended delegated unknown = some im
own_or_unknown none extended delegated unknown = unknown_method extended delegated unknown

abbrev pub meaning : Info → ClassId → List ClassId → Bytes → Option MemberFunc
meaning i icls out name =
    own_or_unknown (first_method i out name) (i.classes icls).flags.eclass
      (first_delegated i out name) (first_method i out (codes "unknown"))

entry_or-unknown :
    (own : Option MemberFunc) (extended : Bool) (delegated : Option ℕ) (unknown : Option MemberFunc)
    → entry_or own extended delegated unknown ≡ own_or_unknown own extended delegated unknown
unfolding entry_or
entry_or-unknown (some im) extended delegated unknown = refl
entry_or-unknown none true (some n) unknown = refl
entry_or-unknown none true none unknown = refl
entry_or-unknown none false delegated unknown = refl

resolve_func-plain :
    (frames : Frames) (i : Info) (name : Bytes) (ns : NsId) (c : Class) (m : Option MemberFunc)
    → c.flags.is_type ≡ false
    → resolve_func frames i name ns c m ≡ method_or_continue m
unfolding resolve_func
resolve_func-plain frames i name ns c none plain = refl
resolve_func-plain frames i name ns c (some im) plain = rw plain

module _ (i : Info) (icls : ClassId) (name : Bytes) {out : List ClassId}
    (order : Preorder (bases_of i) (icls ∷ []) out) (simple : is_qualified name ≡ false) where
  lookup_func-rebuilt :
      lookup_func ((rebuilt i icls out).classes icls) name ≡ meaning i icls out name
  unfolding lookup_func
  lookup_func-rebuilt =
      let found : lookup_func ((rebuilt i icls out).classes icls) name
          ≡ entry_or (first_method i out name) (i.classes icls).flags.eclass
              (first_delegated i out name) (first_method i out (codes "unknown")) =
        simp (
          methods-rebuilt i icls name out simple,
          delegated-rebuilt i icls name out order,
          flags-rebuilt i icls out icls,
          methods-rebuilt i icls (codes "unknown") out refl,
        ) in
      found
      ∙ entry_or-unknown (first_method i out name) (i.classes icls).flags.eclass
          (first_delegated i out name) (first_method i out (codes "unknown"))

  -- In a class that is no type and whose hierarchy ends, the tables are built in more rounds than the
  -- hierarchy has classes, and then, from the namespace of the class, a simple name other than `this`
  -- resolves to the access command of what it means there, whatever that function's protection, and
  -- lookup goes on elsewhere if it means nothing.
  pub class_cmd_resolver-most_specific :
      (frames : Frames) (fuel : ℕ) (ns : NsId)
      → length out < fuel
      → i.namespace_classes ns ≡ some icls
      → (i.classes icls).flags.is_type ≡ false
      → name_eq name (codes "this") ≡ false
      → (i' : Info) × (build_virtual_tables fuel icls i ≡ done i')
        × (class_cmd_resolver frames i' name ns ≡ method_or_continue (meaning i icls out name))
  unfolding class_cmd_resolver
  class_cmd_resolver-most_specific frames fuel ns enough class_ns plain not_this =
      let moved : Info = record (rebuilt i icls out) { namespace_classes = i.namespace_classes } in
      (
        rebuilt i icls out,
        build-rebuilt i fuel icls order enough,
        rw (not_this, namespaces-rebuilt i icls out icls, class_ns, lookup_func-rebuilt)
            (resolve_func-plain frames moved name ns ((rebuilt i icls out).classes icls)
              (meaning i icls out name)
              (ap (λ f. f.is_type) (flags-rebuilt i icls out icls) ∙ plain)),
      )

module _ (frames : Frames) (i : Info) (icls : ClassId) (ns : NsId) (name : Bytes) (cmd : ℕ) where
  resolve_func-type :
      (c : Class) (m : Option MemberFunc)
      → c.flags.is_type ≡ true
      → is_one_of name type_builtins ≡ false
      → resolve_func frames i name ns c m ≡ ok cmd
      → (im : MemberFunc) × (m ≡ some im)
        × (im.type_method ≡ false)
        × (((im.common ≡ true) ⊎ (i.in_option_handling ≡ true))
            ⊎ ((frames.find_command name frames.uplevel_namespace ≡ some cmd)
                × ((ns == frames.uplevel_namespace) ≡ false)))
  unfolding resolve_func
  resolve_func-type c none type other e = absurd (clash e)
    where
      clash : continue ≡ ok cmd → ⊥
      clash e' = cc
  resolve_func-type c (some im) type other e = (im, refl, ground arith, ground arith)

  resolver-func :
      i.namespace_classes ns ≡ some icls
      → class_cmd_resolver frames i name ns ≡ ok cmd
      → resolve_func frames i name ns (i.classes icls) (lookup_func (i.classes icls) name) ≡ ok cmd
  unfolding class_cmd_resolver
  resolver-func class_ns e = elim (Bool-cases (name_eq name (codes "this"))) [
    | inl this ↦ absurd (clash (rw this at e))
    | inr other ↦ rw (other, class_ns) at e
  ]
    where
      clash : continue ≡ ok cmd → ⊥
      clash e' = cc

  -- In a type or widget a name other than the builtins resolves to a command only if it means
  -- something there that is no typemethod, and, outside option handling, only if that is a proc or
  -- the command is the one that the name stands for in another namespace one level up.
  pub class_cmd_resolver-type :
      i.namespace_classes ns ≡ some icls
      → (i.classes icls).flags.is_type ≡ true
      → is_one_of name type_builtins ≡ false
      → class_cmd_resolver frames i name ns ≡ ok cmd
      → (im : MemberFunc) × (lookup_func (i.classes icls) name ≡ some im)
        × (im.type_method ≡ false)
        × (((im.common ≡ true) ⊎ (i.in_option_handling ≡ true))
            ⊎ ((frames.find_command name frames.uplevel_namespace ≡ some cmd)
                × ((ns == frames.uplevel_namespace) ≡ false)))
  class_cmd_resolver-type class_ns type other e =
      resolve_func-type (i.classes icls) (lookup_func (i.classes icls) name) type other
        (resolver-func class_ns e)
