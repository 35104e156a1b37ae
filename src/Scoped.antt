-- ===== src/Scoped.antt =====
-- Scoped commands: Itcl_CodeCmd of generic/itclCmd.c makes them, and Itcl_DecodeScopedCommand of
-- generic/itclUtil.c takes them apart.
pub mod Roundtrip
use itcl.Prelude.{
  ℕ, zero, suc, ◌+◌, Bool, true, false, ◌&&◌, Option, none, some, List, [], ◌∷◌, ◌++◌, map, ◌==◌,
  ltb, leb, if◌then◌else◌, length,
}
use itcl.Prelude.Bytes.{Bytes, codes, name_eq}
use itcl.Classes.{NsId}
use itcl.Paths.{drop}

-- `strncmp(name, prefix, strlen(prefix)) == 0`
abbrev pub is_prefix : Bytes → Bytes → Bool
is_prefix [] name = true
is_prefix (x ∷ xs) [] = false
is_prefix (x ∷ xs) (y ∷ ys) = (x == y) && is_prefix xs ys

-- The first character, tested.
abbrev pub starts_with : ℕ → Bytes → Bool
starts_with c [] = false
starts_with c (x ∷ xs) = x == c

-- `for (pos = name + 9; *pos == ' '; pos++)`
abbrev pub skip_spaces : Bytes → Bytes
skip_spaces [] = []
skip_spaces (x ∷ xs) = let rest = skip_spaces xs in if x == 32 then rest else x ∷ xs

abbrev pub namespace_word : Bytes
namespace_word = codes "namespace"

abbrev pub inscope_word : Bytes
inscope_word = codes "inscope"

-- The string looks like a scoped command.
unfoldable pub is_scoped : Bytes → Bool
is_scoped name =
    starts_with b'n' name
    && ltb 17 (length name)
    && is_prefix namespace_word name
    && starts_with b'i' (skip_spaces (drop 9 name))
    && leb 7 (length (skip_spaces (drop 9 name)))
    && is_prefix inscope_word (skip_spaces (drop 9 name))

-- What decoding returns: the string as it is, or a namespace and a command. A fault is a pointer that
-- is freed without having been set.
pub data Decoded : Type 0 where
  plain : Bytes → Decoded
  scoped : NsId → Bytes → Decoded
  failed fault : Decoded

-- The options of the command `code`, up to the words of the command. A fault is a read behind the last
-- word.
pub data Options : Type 0 where
  options : NsId → List Bytes → Options
  failed fault : Options

-- What the command `code` returns.
pub data Coded : Type 0 where
  coded : Bytes → Coded
  failed fault : Coded

-- Tcl converts a word to an element of a list by `element`, splits a string into words, finds a
-- namespace by its name, and has the full name of a namespace and the global namespace.
pub record Tcl : Type 0 where
  pub element : Bytes → Bytes
  pub split_list : Bytes → Option (List Bytes)
  pub find_namespace : Bytes → Option NsId
  pub full_name : NsId → Bytes
  pub global_namespace : NsId

module _ (tcl : Tcl) where
  -- The string of a list: its elements, with spaces between them.
  unfoldable pub merge : List Bytes → Bytes
  merge [] = []
  merge (w ∷ []) = tcl.element w
  merge (w ∷ v ∷ ws) = tcl.element w ++ (32 ∷ merge (v ∷ ws))

  abbrev pub in_namespace : Bytes → Option NsId → Decoded
  in_namespace cmd none = failed
  in_namespace cmd (some n) = scoped n cmd

  abbrev pub decode_words : List Bytes → Decoded
  decode_words [] = failed
  decode_words (a ∷ []) = failed
  decode_words (a ∷ b ∷ []) = failed
  decode_words (a ∷ b ∷ c ∷ []) = failed
  decode_words (a ∷ b ∷ c ∷ d ∷ []) = in_namespace d (tcl.find_namespace c)
  decode_words (a ∷ b ∷ c ∷ d ∷ e ∷ ws) = failed

  abbrev pub decode_list : Option (List Bytes) → Decoded
  decode_list none = fault
  decode_list (some ws) = decode_words ws

  unfoldable pub decode_scoped_command : Bytes → Decoded
  unfolding is_scoped
  decode_scoped_command name =
      if is_scoped name then decode_list (tcl.split_list name) else plain name

  -- What follows `-namespace`, and how the loop goes on.
  abbrev pub namespace_option : (NsId → Options) → Option NsId → Options
  namespace_option go none = failed
  namespace_option go (some n) = go n

  -- The loop over the options; `single` is `objc == 2`.
  unfoldable pub scan_options : Bool → NsId → List Bytes → Options
  scan_options single n [] = options n []
  scan_options single n (w ∷ []) =
      if starts_with b'-' w
      then if name_eq w (codes "-namespace")
        then if single then failed else fault
        else if name_eq w (codes "--")
        then options n []
        else failed
      else options n (w ∷ [])
  scan_options single n (w ∷ v ∷ ws) =
      let go = λ (m : NsId). scan_options single m ws in
      if starts_with b'-' w
      then if name_eq w (codes "-namespace")
        then if single then failed else namespace_option go (tcl.find_namespace v)
        else if name_eq w (codes "--")
        then options n (v ∷ ws)
        else failed
      else options n (w ∷ v ∷ ws)

  -- One word stands for itself, several make a list.
  unfoldable pub command_word : List Bytes → Bytes
  unfolding merge
  command_word [] = merge []
  command_word (w ∷ []) = w
  command_word (w ∷ v ∷ ws) = merge (w ∷ v ∷ ws)

  abbrev pub namespace_name : NsId → Bytes
  namespace_name n = if n == tcl.global_namespace then codes "::" else tcl.full_name n

  unfoldable pub code_with : Options → Coded
  unfolding merge command_word
  code_with (options n ws) =
      coded (merge (namespace_word ∷ inscope_word ∷ namespace_name n ∷ command_word ws ∷ []))
  code_with failed = failed
  code_with fault = fault

  -- `code` with its words, in the namespace `n`.
  unfoldable pub code_cmd : NsId → List Bytes → Coded
  unfolding code_with scan_options
  code_cmd n [] = failed
  code_cmd n (w ∷ ws) = code_with (scan_options (length (w ∷ ws) == 1) n (w ∷ ws))
