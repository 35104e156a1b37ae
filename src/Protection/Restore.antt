-- ===== src/Protection/Restore.antt =====
-- That Itcl_ClassProtectionCmd of generic/itclParse.c puts the protection level back.
use itcl.Prelude.{ℕ, ◌≡◌, ◌≢◌, List}
use itcl.Prelude.Bytes.{Bytes}
use itcl.Protection.{Parsing, Result, eval_words, tcl_break, tcl_continue}

module _ {S : Type 0} (eval_obj : Bytes → Parsing S → Result S)
    (eval_args : List Bytes → Parsing S → Result S) where
  -- The script ran at the level, the old one is back, and the code is no `break` and no `continue`.
  pub record IsRestored (level : ℕ) (words : List Bytes) (s : Parsing S) (r : Result S)
      : Type 0 where
    pub back : r.state.protection ≡ s.protection
    pub ran :
        r.state.other
        ≡ (eval_words eval_obj eval_args words
            (record { protection = level; other = s.other })).state.other
    pub no_break : r.code ≢ tcl_break
    pub no_continue : r.code ≢ tcl_continue
