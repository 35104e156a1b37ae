-- ===== src/Tests/Contexts.antt =====
-- Runs of the contexts of generic/itclMethod.c.
use itcl.Prelude.{◌≡◌, refl, true, none, some}
use itcl.Context.{Calls, ok, set_context}
use itcl.Context.Frames.{IsNested, set_context-IsNested}

-- No frame has a context, and object 4 is of class 9.
abbrev no_context : Calls
no_context = record {
  frame_context = λ f. none;
  namespace_classes = λ ns. none;
  curr_object = none;
  class_of = λ o. 9;
  has_namespace = λ k. true;
}

set_context-IsNested_example :
    (t : Calls) × (set_context 7 (some 4) no_context ≡ ok t) × IsNested 7 4 no_context t
set_context-IsNested_example = set_context-IsNested 7 4 no_context refl
