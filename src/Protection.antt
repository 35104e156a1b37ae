-- ===== src/Protection.antt =====
-- The protection level of a class body: Itcl_Protection of generic/itclUtil.c and
-- Itcl_ClassProtectionCmd of generic/itclParse.c. The evaluation of a script is a parameter.
pub mod Restore
use itcl.Prelude.{
  ℕ, Bool, true, false, ◌&&◌, ◌||◌, Option, none, some, List, [], ◌∷◌, ◌==◌, ◌>>=◌, if◌then◌else◌,
}
use itcl.Prelude.Bytes.{Bytes}
use itcl.Classes.{itcl_public, itcl_protected, itcl_private, itcl_default_protect}

-- The assertion on a new level.
abbrev pub is_level : ℕ → Bool
is_level l =
    l == itcl_public || (l == itcl_protected || (l == itcl_private || l == itcl_default_protect))

-- The level of `ItclObjectInfo`, and whatever else a script can change.
pub record Parsing (S : Type 0) : Type 0 where
  pub protection : ℕ
  pub other : S

-- What a command returns, with the state after it.
pub record Result (S : Type 0) : Type 0 where
  pub code : ℕ
  pub state : Parsing S

-- The codes of Tcl.
abbrev pub tcl_error : ℕ
tcl_error = 1

abbrev pub tcl_break : ℕ
tcl_break = 3

abbrev pub tcl_continue : ℕ
tcl_continue = 4

-- `break` and `continue` out of a loop are errors.
abbrev pub checked_code : ℕ → ℕ
checked_code c = if c == tcl_break || c == tcl_continue then tcl_error else c

module _ {S : Type 0} where
  -- The state after Itcl_Protection; the old level is `s.protection`. `none`: the assertion fails.
  unfoldable pub set_protection : ℕ → Parsing S → Option (Parsing S)
  set_protection new s =
      if new == 0
      then some s
      else if is_level new
      then some (record s { protection = new })
      else none

  module _ (eval_obj : Bytes → Parsing S → Result S)
      (eval_args : List Bytes → Parsing S → Result S) where
    -- One word is a script, several are a command.
    unfoldable pub eval_words : List Bytes → Parsing S → Result S
    eval_words [] s = record { code = tcl_error; state = s }
    eval_words (w ∷ []) s = eval_obj w s
    eval_words (w ∷ v ∷ ws) s = eval_args (w ∷ v ∷ ws) s

    unfoldable pub restore : ℕ → Result S → Option (Result S)
    unfolding set_protection
    restore old r = do
      s ← set_protection old r.state
      some (record { code = checked_code r.code; state = s })

    -- The words after the name of the command, and the level that it stands for.
    unfoldable pub class_protection_cmd : ℕ → List Bytes → Parsing S → Option (Result S)
    unfolding restore eval_words set_protection
    class_protection_cmd level [] s = some (record { code = tcl_error; state = s })
    class_protection_cmd level (w ∷ ws) s = do
      t ← set_protection level s
      restore s.protection (eval_words (w ∷ ws) t)
