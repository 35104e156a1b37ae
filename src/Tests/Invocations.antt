-- ===== src/Tests/Invocations.antt =====
-- Calls of methods of object 5, on frames 10 and 11.
use itcl.Prelude.{ℕ, ◌≡◌, refl, Option, none, some, List, []}
use itcl.Context.Invoke.{MethodContext, Calling, Invocation, done, call, run_calls}
use itcl.Context.Memory.{IsSound}
use itcl.Context.Entries.{absent}
use itcl.Context.Returns.{Balanced, run_calls-Balanced}

abbrev idle : Calling
idle = record {
  frame_context = λ k. none;
  contexts = λ k. none;
  next = 0;
  cache = λ o m. none;
  flags = λ o. 0;
  call_refs = λ o. 0;
  claims = λ o. 1;
  class_refs = λ c. 0;
}

abbrev no_entries : ℕ → List ℕ
no_entries k = []

idle-IsSound : IsSound idle no_entries
idle-IsSound = record {
  stacks = λ k. absent;
  cached = λ o m id e. absurd (empty id e);
  unused = λ k h. refl;
}
  where
    empty : (id : ℕ) → none ≡ some id → ⊥
    empty id e = cc

-- A method that calls itself, on the next frame, from the namespace given.
abbrev outer : Invocation
outer = record { member = 7; icls = 1; object = 5; context = 20; frame = 10; ns = 3 }

abbrev again : ℕ → Invocation
again ns = record { member = 7; icls = 1; object = 5; context = 21; frame = 11; ns = ns }

run_calls-Balanced_example :
    (s' : Calling) × (run_calls (call outer (call (again 3) done done) (call outer done done)) idle
      ≡ some s')
    × Balanced idle no_entries s'
run_calls-Balanced_example =
    run_calls-Balanced (call outer (call (again 3) done done) (call outer done done)) idle
      no_entries idle-IsSound

abbrev context_in : ℕ → Option Calling → Option MethodContext
context_in id none = none
context_in id (some s) = s.contexts id

-- The call from another namespace has a context of its own, which is not cached, and which stays in
-- memory although nothing refers to it any more.
context_leaks :
    context_in 1 (run_calls (call outer (call (again 4) done done) done) idle)
    ≡ some (record { object_flags = 0; ns = 4; object = 5; member = 7; ref_count = 0 })
unfolding run_calls
context_leaks = refl
