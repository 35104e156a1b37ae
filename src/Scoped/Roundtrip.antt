-- ===== src/Scoped/Roundtrip.antt =====
-- Decoding gives back what the command `code` put in.
use itcl.Prelude.{
  Bool, false, Option-cases, ℕ, ◌≤◌, ◌≡◌, refl, ap, ◌∙◌, sym, true, ◌&&◌, some, List, [], ◌∷◌, ◌++◌,
  arith, ◌==◌, leb, if◌then◌else◌, length, ltb_of_lt, Bool-cases, inl, inr, ==_iff,
}
use itcl.Prelude.Bytes.{Bytes, codes, name_eq, eq_of_name_eq}
use itcl.Classes.{NsId}
use itcl.Scoped.{
  namespace_word, inscope_word, is_scoped, plain, scoped, Options, options, coded, failed, fault,
  Tcl, merge, in_namespace, decode_list, decode_scoped_command, scan_options, command_word,
  namespace_name, code_with, code_cmd, starts_with,
}

leb_of_le : (a b : ℕ) → a ≤ b → leb a b ≡ true
leb_of_le a b h = ground (arith, h)

-- Any string that starts as a scoped command does and goes on is taken for one.
scoped_start :
    (rest : Bytes) → is_scoped (namespace_word ++ (32 ∷ (inscope_word ++ (32 ∷ rest)))) ≡ true
unfolding is_scoped
scoped_start rest =
    let name = namespace_word ++ (32 ∷ (inscope_word ++ (32 ∷ rest))) in
    let tail = inscope_word ++ (32 ∷ rest) in
    ap (λ b. true && b && true && true && leb 7 (length tail) && true)
      (ltb_of_lt 17 (length name) (omega arith))
    ∙ ap (λ b. true && true && true && true && b && true) (leb_of_le 7 (length tail) (omega arith))

coded-inj : {a b : Bytes} → coded a ≡ coded b → a ≡ b
coded-inj e = cc

failed-coded : {s : Bytes} → failed ≡ coded s → ⊥
failed-coded e = cc

fault-coded : {s : Bytes} → fault ≡ coded s → ⊥
fault-coded e = cc

-- What the words of a command mean is known to Tcl: a list splits into the words that it was made of,
-- words of letters stand for themselves in it, and a namespace has its full name.
module _ (tcl : Tcl) where
  find_name :
      ((n : NsId) → tcl.find_namespace (tcl.full_name n) ≡ some n)
      → tcl.find_namespace (codes "::") ≡ some tcl.global_namespace
      → (n : NsId) → tcl.find_namespace (namespace_name tcl n) ≡ some n
  find_name named global n = elim (Bool-cases (n == tcl.global_namespace)) [
    | inl e ↦
        ap (λ b. tcl.find_namespace (if b then codes "::" else tcl.full_name n)) e
        ∙ global
        ∙ ap some (sym ((==_iff n tcl.global_namespace).0 e))
    | inr e ↦ ap (λ b. tcl.find_namespace (if b then codes "::" else tcl.full_name n)) e ∙ named n
  ]

  scoped_merge :
      (ns cmd : Bytes)
      → tcl.element namespace_word ≡ namespace_word
      → tcl.element inscope_word ≡ inscope_word
      → is_scoped (merge tcl (namespace_word ∷ inscope_word ∷ ns ∷ cmd ∷ [])) ≡ true
  unfolding merge
  scoped_merge ns cmd e f =
      ap
        (λ a. is_scoped (
          a
          ++ (32
              ∷ (tcl.element inscope_word ++ (32 ∷ (tcl.element ns ++ (32 ∷ tcl.element cmd)))))))
        e
      ∙ ap
          (λ a.
            is_scoped
              (namespace_word ++ (32 ∷ (a ++ (32 ∷ (tcl.element ns ++ (32 ∷ tcl.element cmd)))))))
          f
      ∙ scoped_start (tcl.element ns ++ (32 ∷ tcl.element cmd))

  decode-merge :
      (n : NsId) (ns cmd : Bytes)
      → is_scoped (merge tcl (namespace_word ∷ inscope_word ∷ ns ∷ cmd ∷ [])) ≡ true
      → tcl.split_list (merge tcl (namespace_word ∷ inscope_word ∷ ns ∷ cmd ∷ []))
        ≡ some (namespace_word ∷ inscope_word ∷ ns ∷ cmd ∷ [])
      → tcl.find_namespace ns ≡ some n
      → decode_scoped_command tcl (merge tcl (namespace_word ∷ inscope_word ∷ ns ∷ cmd ∷ []))
        ≡ scoped n cmd
  unfolding decode_scoped_command
  decode-merge n ns cmd e f g =
      let name = merge tcl (namespace_word ∷ inscope_word ∷ ns ∷ cmd ∷ []) in
      ap (λ b. if b then decode_list tcl (tcl.split_list name) else plain name) e
      ∙ ap (decode_list tcl) f
      ∙ ap (in_namespace tcl cmd) g

  code_with-decodes :
      ((ns cmd : Bytes)
        → tcl.split_list (merge tcl (namespace_word ∷ inscope_word ∷ ns ∷ cmd ∷ []))
          ≡ some (namespace_word ∷ inscope_word ∷ ns ∷ cmd ∷ []))
      → tcl.element namespace_word ≡ namespace_word
      → tcl.element inscope_word ≡ inscope_word
      → ((n : NsId) → tcl.find_namespace (tcl.full_name n) ≡ some n)
      → tcl.find_namespace (codes "::") ≡ some tcl.global_namespace
      → (o : Options) (s : Bytes) → code_with tcl o ≡ coded s
      → (m : NsId) × (ws : List Bytes) × (o ≡ options m ws)
        × (decode_scoped_command tcl s ≡ scoped m (command_word tcl ws))
  unfolding code_with
  code_with-decodes splits e f named global (options m ws) s h = (
    m,
    ws,
    refl,
    ap (decode_scoped_command tcl) (sym (coded-inj h))
        ∙ decode-merge m (namespace_name tcl m) (command_word tcl ws)
            (scoped_merge (namespace_name tcl m) (command_word tcl ws) e f)
            (splits (namespace_name tcl m) (command_word tcl ws)) (find_name named global m),
  )
  code_with-decodes splits e f named global failed s h = absurd (failed-coded h)
  code_with-decodes splits e f named global fault s h = absurd (fault-coded h)

  -- The words of `code`, in a namespace: which namespace the options select, and which words follow.
  pub data Selects : NsId → List Bytes → NsId → List Bytes → Type 0 where
    no_words : {n : NsId} → Selects n [] n []
    plain_word :
        {n : NsId} {w : Bytes} {ws : List Bytes}
        → starts_with b'-' w ≡ false
        → Selects n (w ∷ ws) n (w ∷ ws)
    dashes : {n : NsId} {w : Bytes} {ws : List Bytes} → w ≡ codes "--" → Selects n (w ∷ ws) n ws
    named_first :
        {n m k : NsId} {w name : Bytes} {ws cmd : List Bytes}
        → w ≡ codes "-namespace"
        → tcl.find_namespace name ≡ some m
        → Selects m ws k cmd
        → Selects n (w ∷ name ∷ ws) k cmd

  options-Selects :
      (n k m : NsId) (ws rest cmd : List Bytes)
      → Selects n ws k rest
      → options k rest ≡ options m cmd
      → Selects n ws m cmd
  options-Selects n k m ws rest cmd s e = rw (same_namespace e, same_words e) at s
    where
      same_namespace : options k rest ≡ options m cmd → k ≡ m
      same_namespace e = cc

      same_words : options k rest ≡ options m cmd → rest ≡ cmd
      same_words e = cc

  failed-options : (m : NsId) (cmd : List Bytes) → failed ≡ options m cmd → ⊥
  failed-options m cmd e = cc

  fault-options : (m : NsId) (cmd : List Bytes) → fault ≡ options m cmd → ⊥
  fault-options m cmd e = cc

  scan_options-Selects :
      (single : Bool) (n m : NsId) (ws cmd : List Bytes)
      → scan_options tcl single n ws ≡ options m cmd
      → Selects n ws m cmd
  unfolding scan_options
  scan_options-Selects single n m [] cmd e = options-Selects n n m [] [] cmd no_words e
  scan_options-Selects single n m (w ∷ []) cmd e = elim (Bool-cases (starts_with b'-' w)) [
    | inr word ↦ options-Selects n n m (w ∷ []) (w ∷ []) cmd (plain_word word) (rw word at e)
    | inl dash ↦ elim (Bool-cases (name_eq w (codes "-namespace"))) [
      | inl option ↦ elim (Bool-cases single) [
        | inl one ↦ absurd (failed-options m cmd (rw (dash, option, one) at e))
        | inr more ↦ absurd (fault-options m cmd (rw (dash, option, more) at e))
      ]
      | inr other ↦ elim (Bool-cases (name_eq w (codes "--"))) [
        | inl last ↦
            options-Selects n n m (w ∷ []) [] cmd (dashes (eq_of_name_eq w (codes "--") last))
              (rw (dash, other, last) at e)
        | inr unknown ↦ absurd (failed-options m cmd (rw (dash, other, unknown) at e))
      ]
    ]
  ]
  scan_options-Selects single n m (w ∷ v ∷ ws) cmd e = elim (Bool-cases (starts_with b'-' w)) [
    | inr word ↦
        options-Selects n n m (w ∷ v ∷ ws) (w ∷ v ∷ ws) cmd (plain_word word) (rw word at e)
    | inl dash ↦ elim (Bool-cases (name_eq w (codes "-namespace"))) [
      | inl option ↦ elim (Bool-cases single) [
        | inl one ↦ absurd (failed-options m cmd (rw (dash, option, one) at e))
        | inr more ↦ elim (Option-cases (tcl.find_namespace v)) [
          | inl missing ↦ absurd (failed-options m cmd (rw (dash, option, more, missing) at e))
          | inr (k, found) ↦
              named_first (eq_of_name_eq w (codes "-namespace") option) found
                (scan_options-Selects single k m ws cmd (rw (dash, option, more, found) at e))
        ]
      ]
      | inr other ↦ elim (Bool-cases (name_eq w (codes "--"))) [
        | inl last ↦
            options-Selects n n m (w ∷ v ∷ ws) (v ∷ ws) cmd
              (dashes (eq_of_name_eq w (codes "--") last)) (rw (dash, other, last) at e)
        | inr unknown ↦ absurd (failed-options m cmd (rw (dash, other, unknown) at e))
      ]
    ]
  ]

  -- Where Tcl splits a list of four words into these words, keeps the words namespace and inscope as
  -- they are in a list, and finds a namespace by its full name and the global one as `::`: whatever
  -- string the command `code` returns for some words, Itcl_DecodeScopedCommand decodes it to a
  -- namespace and a command: the namespace is that of the last option -namespace, or else the current
  -- one, the options end before the first word without a dash or behind the first --, and the command
  -- is the word or list of words that follows.
  pub code_cmd-decodes :
      ((ns cmd : Bytes)
        → tcl.split_list (merge tcl (namespace_word ∷ inscope_word ∷ ns ∷ cmd ∷ []))
          ≡ some (namespace_word ∷ inscope_word ∷ ns ∷ cmd ∷ []))
      → tcl.element namespace_word ≡ namespace_word
      → tcl.element inscope_word ≡ inscope_word
      → ((n : NsId) → tcl.find_namespace (tcl.full_name n) ≡ some n)
      → tcl.find_namespace (codes "::") ≡ some tcl.global_namespace
      → (n : NsId) (w : Bytes) (ws : List Bytes) (s : Bytes) → code_cmd tcl n (w ∷ ws) ≡ coded s
      → (m : NsId) × (cmd : List Bytes) × Selects n (w ∷ ws) m cmd
        × (decode_scoped_command tcl s ≡ scoped m (command_word tcl cmd))
  unfolding code_cmd
  code_cmd-decodes splits e f named global n w ws s h =
      let o = scan_options tcl (length (w ∷ ws) == 1) n (w ∷ ws) in
      let (m, cmd, selected, decoded) = code_with-decodes splits e f named global o s h in
      (m, cmd, scan_options-Selects (length (w ∷ ws) == 1) n m (w ∷ ws) cmd selected, decoded)
