-- ===== src/Context/Frames.antt =====
-- That the contexts of generic/itclMethod.c nest with the call frames.
use itcl.Prelude.{
  ◌≡◌, ap, false, Option, none, some, ◌==◌, ==_refl, if◌then◌else◌, arith, [], ◌∷◌, Bool-cases, inl,
  inr,
}
use itcl.Stack.{Place, Stack, init_stack, push_stack, pop_stack, peek_stack, get_stack_size}
use itcl.Classes.{NsId}
use itcl.Context.{
  ObjectId, FrameId, CallContext, Calls, ok, set_frame, new_context, set_new, set_context,
  unset_entry, drop_context, pushed_first, unset_context, got_member, got_root, from_context,
  from_namespace, get_from, get_context,
}

-- What a context that is set brings about: the frame has the object and its class, in every
-- namespace; the other frames have what they had; and after Itcl_UnsetContext every frame has.
pub record IsNested (f : FrameId) (o : ObjectId) (s t : Calls) : Type 0 where
  pub inside :
      (ns : NsId) → get_context f ns t ≡ ok (record { icls = s.class_of o; object = some o })
  pub others :
      (g : FrameId) (ns : NsId) → (g == f) ≡ false → get_context g ns t ≡ get_context g ns s
  pub after :
      (u : Calls) × (unset_context f t ≡ ok u)
      × ((g : FrameId) (ns : NsId) → get_context g ns u ≡ get_context g ns s)

-- The stack of a frame with one context.
abbrev one_context : Option ObjectId → Stack CallContext
one_context io = record {
  place = Place.space;
  cells = some (new_context io) ∷ none ∷ none ∷ none ∷ none ∷ [];
  len = 1;
  max = 5;
}

set-one_context :
    (f : FrameId) (io : Option ObjectId) (s : Calls)
    → s.frame_context f ≡ none
    → set_context f io s ≡ ok (set_frame f (some (one_context io)) s)
unfolding set_context set_new pushed_first push_stack init_stack
set-one_context f io s h = ap (λ e. set_new f io e s) h

at-set_frame :
    (f : FrameId) (v : Option (Stack CallContext)) (s : Calls)
    → (set_frame f v s).frame_context f ≡ v
unfolding set_frame
at-set_frame f v s = ap (λ b. if b then v else s.frame_context f) (==_refl f)

other-set_frame :
    (f g : FrameId) (v : Option (Stack CallContext)) (s : Calls)
    → (g == f) ≡ false
    → (set_frame f v s).frame_context g ≡ s.frame_context g
unfolding set_frame
other-set_frame f g v s e = ap (λ b. if b then v else s.frame_context g) e

-- The frame alone decides how its context changes what Itcl_GetContext returns.
get_context-set_frame :
    (f g : FrameId) (ns : NsId) (v : Option (Stack CallContext)) (s : Calls)
    → (set_frame f v s).frame_context g ≡ s.frame_context g
    → get_context g ns (set_frame f v s) ≡ get_context g ns s
unfolding get_context set_frame get_from from_context got_member got_root from_namespace
get_context-set_frame f g ns v s e = ap (get_from s ns) e

back :
    (f g : FrameId) (v : Option (Stack CallContext)) (s : Calls)
    → s.frame_context f ≡ none
    → (set_frame f none (set_frame f v s)).frame_context g ≡ s.frame_context g
unfolding set_frame
back f g v s h = elim (Bool-cases (g == f)) [
  | inl e ↦ ground (arith, h, e)
  | inr e ↦ ground (arith, e)
]

-- On a frame without a context Itcl_SetContext sets one for an object: Itcl_GetContext then returns
-- the object and its class there, in every namespace, and what it returned before for the other
-- frames; and Itcl_UnsetContext succeeds, after which it returns for all frames what it returned
-- before.
pub set_context-IsNested :
    (f : FrameId) (o : ObjectId) (s : Calls)
    → s.frame_context f ≡ none
    → (t : Calls) × (set_context f (some o) s ≡ ok t) × IsNested f o s t
unfolding get_context unset_context unset_entry drop_context pop_stack get_from peek_stack
    get_stack_size set_frame
set_context-IsNested f o s h =
    let t = set_frame f (some (one_context (some o))) s in
    (
      t,
      set-one_context f (some o) s h,
      record {
        inside = λ ns. ap (get_from t ns) (at-set_frame f _ s);
        others = λ g ns e. get_context-set_frame f g ns _ s (other-set_frame f g _ s e);
        after = (
          set_frame f none t,
          ap (unset_entry f t) (at-set_frame f _ s),
          λ g ns. ap (get_from s ns) (back f g _ s h),
        );
      },
    )
