-- ===== src/Inherit/Stale.antt =====
-- What a failed `inherit` leaves in the heritage table of the class.
use itcl.Prelude.{
  ℕ, suc, ◌<◌, ◌≡◌, refl, sym, ap, ◌∙◌, inl, inr, true, false, Option, none, some, List, [], ◌∷◌,
  ◌++◌, arith, Bool-cases, length, has, distinct, has-append,
}
use itcl.Prelude.Bytes.{Bytes}
use itcl.Classes.{ClassId, Info, update, bases_of, release_class}
use itcl.Hierarchy.{Walk, done, halt}
use itcl.Hierarchy.Iteration.{Visits, run_over, run_over-go, run_over-halt}
use itcl.Hierarchy.Iteration
use itcl.Inherit.{
  InheritError, Status, error, Interp, Scanned, enter, find_twice, tear_down, release_all,
  class_inherit_cmd, check_bases,
}
use itcl.Inherit.State.{Names, heritage_of, add_base_all, bases-add_base_all, add_bases-Names}
use itcl.Inherit.Scan.{enter-known, enter-new, has-snoc, find_twice-distinct, distinct-fresh}
use itcl.Inherit.Accepts.{IsReady, opens_frame, check_bases-once}
use itcl.Inherit.Rejects.{with_seen, bases-tear_down, scan-rejects}

module _ (new : ClassId → List ClassId) where
  -- What stands in the table stays there.
  heritage-kept :
      (x : ClassId) (cs seen : List ClassId) (r : Option ClassId) (s : Scanned)
      → run_over new enter cs (record { heritage = seen; repeated = r }) ≡ halt s
      → has x seen ≡ true
      → has x s.heritage ≡ true
  unfolding run_over
  heritage-kept x [] seen r s e h = cc
  heritage-kept x (c ∷ cs) seen r s e h = elim (Bool-cases (has c seen)) [
    | inl known ↦ halted (sym (run_over-halt new enter c cs _ _ (enter-known c seen r known)) ∙ e)
    | inr fresh ↦
        heritage-kept x cs (seen ++ c ∷ []) r s
          (sym (run_over-go new enter c cs _ _ (enter-new c seen r fresh)) ∙ e)
          (has-snoc x c seen h)
  ]
    where
      halted :
          halt (record { heritage = seen; repeated = some c }) ≡ halt s → has x s.heritage ≡ true
      halted a = ground (arith)

  -- The first class visited is in the table when the scan stops.
  first-kept :
      (b : ClassId) (pre seen : List ClassId) (r : Option ClassId) (s : Scanned)
      {st all mid : List ClassId}
      → Visits new all pre mid
      → all ≡ b ∷ st
      → has b seen ≡ false
      → run_over new enter pre (record { heritage = seen; repeated = r }) ≡ halt s
      → has b s.heritage ≡ true
  unfolding run_over
  first-kept b pre seen r s Iteration.stop e out h = cc
  first-kept b pre seen r s (Iteration.visit {c} {out = cs} v) e out h =
      let same : c ≡ b = cc in
      let fresh : has c seen ≡ false = ap (λ x. has x seen) same ∙ out in
      ap (λ x. has x s.heritage) (sym same)
      ∙ heritage-kept c cs (seen ++ c ∷ []) r s
          (sym (run_over-go new enter c cs _ _ (enter-new c seen r fresh)) ∙ h)
          (ground (arith, has-append c seen (c ∷ [])))

heritage-release_all :
    (bs : List ClassId) (i : Info) (d : ClassId)
    → heritage_of (release_all bs i) d ≡ heritage_of i d
unfolding release_all
heritage-release_all [] i d = refl
heritage-release_all (b ∷ bs) i d = heritage-release_all bs (release_class b i) d ∙ released b d
  where
    released : (b d : ClassId) → heritage_of (release_class b i) d ≡ heritage_of i d
    released b d = unfold release_class in ground arith

heritage-tear_down :
    (icls : ClassId) (i : Info) → heritage_of (tear_down icls i) icls ≡ heritage_of i icls
unfolding tear_down
heritage-tear_down icls i = here ∙ heritage-release_all (bases_of i icls) i icls
  where
    here :
        heritage_of
          (update (release_all (bases_of i icls) i) icls (λ k. record k { bases = [] }))
          icls
        ≡ heritage_of (release_all (bases_of i icls) i) icls
    here = unfold update in ground arith

-- The command failed on a class `again` that is reached twice, the class has no bases, and its heritage
-- table has, besides the class itself, exactly the ancestors `entered` before the second visit of
-- `again`, in the order `out`, all of them different; `b` is one of them.
pub record Stale (icls b : ClassId) (out : List ClassId) (r : Walk (Info × Status)) : Type 0 where
  pub left : Info
  pub entered : List ClassId
  pub behind : List ClassId
  pub again : ClassId
  pub cut : out ≡ entered ++ again ∷ behind
  pub all_new : distinct (icls ∷ entered) ≡ true
  pub twice : has again (icls ∷ entered) ≡ true
  pub heritage : heritage_of left icls ≡ icls ∷ entered
  pub failed : r ≡ done (left, error (InheritError.inherited_twice again))
  pub no_bases : bases_of left icls ≡ []
  pub kept : has b (heritage_of left icls) ≡ true

heritage-with_seen :
    (interp : Interp) (fuel : ℕ) (icls : ClassId) (j : Info) (seen : List ClassId)
    → heritage_of (with_seen interp fuel icls j seen) icls ≡ seen
unfolding update
heritage-with_seen interp fuel icls j seen = ground arith

module _ (interp : Interp) (fuel : ℕ) (icls b : ClassId) (i : Info) (bs out : List ClassId)
    (ready : IsReady i icls (b ∷ bs) out) (apart : distinct (icls ∷ b ∷ bs) ≡ true)
    (twice : distinct (icls ∷ out) ≡ false) (enough : suc (length out) < fuel) where
  -- On a class that has no bases and stands alone in its heritage table, with words that name
  -- different classes, other than the class itself, whose hierarchies end, where the call frame can be
  -- pushed, a walk over the hierarchy gets at least two rounds more than there are ancestors, and some
  -- class is reached twice, `inherit` fails and takes the bases back, but the heritage
  -- table keeps, besides the class itself, exactly the ancestors that come in depth-first order before
  -- the first one that is reached again, the first of the rejected bases among them.
  pub class_inherit_cmd-Stale :
      (t : Bytes) (ts : List Bytes)
      → interp.push_call_frame ≡ true
      → Names interp.find_class (t ∷ ts) (b ∷ bs)
      → Stale icls b out (class_inherit_cmd interp fuel (some icls) (t ∷ ts) i)
  unfolding class_inherit_cmd
  class_inherit_cmd-Stale t ts frame named =
      let j = add_base_all icls (b ∷ bs) i in
      let listed : bases_of j icls ≡ b ∷ bs =
        bases-add_base_all icls (b ∷ bs) i ∙ ap (λ xs. xs ++ b ∷ bs) ready.no_bases in
      let (stops, r) = scan-rejects interp fuel icls i (b ∷ bs) out ready twice enough in
      let seen = (icls ∷ []) ++ stops.more in
      record {
        left = tear_down icls (with_seen interp fuel icls j seen);
        entered = stops.more;
        behind = stops.behind;
        again = stops.again;
        cut = stops.cut;
        all_new = distinct-fresh icls stops.more ∙ stops.all_new;
        twice = stops.known;
        heritage =
            heritage-tear_down icls (with_seen interp fuel icls j seen)
            ∙ heritage-with_seen interp fuel icls j seen;
        failed =
            opens_frame interp fuel icls i (t ∷ ts) frame ready.no_bases
            ∙ ap (check_bases interp fuel icls)
                (add_bases-Names interp fuel icls (t ∷ ts) (b ∷ bs) i named (ground arith))
            ∙ check_bases-once interp fuel icls j
                (ap find_twice listed ∙ find_twice-distinct (b ∷ bs) (ground arith))
            ∙ r;
        no_bases = bases-tear_down interp fuel icls (with_seen interp fuel icls j seen);
        kept =
            ap (has b) (
              heritage-tear_down icls (with_seen interp fuel icls j seen)
              ∙ heritage-with_seen interp fuel icls j seen)
            ∙ first-kept (bases_of j) b stops.pre (icls ∷ []) none _ stops.visits
                (ap (λ cs. cs ++ []) listed) (ground arith) stops.stopped;
      }
