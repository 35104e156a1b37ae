-- ===== src/Memory/Claims.antt =====
-- When data of generic/itclUtil.c is freed: at the release that matches the first claim.
use itcl.Prelude.{
  ℕ, ◌+◌, ◌-◌, ◌≡◌, refl, ap, ◌∙◌, Bool, true, false, ◌&&◌, Option, none, some, List, [], ◌∷◌, ◌++◌,
  arith, ◌==◌, ltb,
}
use itcl.Memory.{
  Block, Memory, write, on_block, on_found, preserve_data, preserve_block, release_block,
  release_counted, release_data, free, free_block,
}

pub data Claim : Type 0 where
  preserve release : Claim

abbrev pub claim : ℕ → Claim → Memory → Option Memory
claim p preserve m = preserve_data (some p) m
claim p release m = release_data (some p) m

abbrev pub and_then : (Memory → Option Memory) → Option Memory → Option Memory
and_then f none = none
and_then f (some m) = f m

abbrev pub claims : ℕ → List Claim → Memory → Option Memory
claims p [] m = some m
claims p (c ∷ cs) m = and_then (claims p cs) (claim p c m)

-- The claims, `n` at first, are all given back by the last step and not before it.
abbrev pub balanced : ℕ → List Claim → Bool
balanced n [] = n == 0
balanced n (preserve ∷ cs) = balanced (n + 1) cs
balanced n (release ∷ []) = n == 1
balanced n (release ∷ c ∷ cs) = ltb 1 n && balanced (n - 1) (c ∷ cs)

abbrev block : Option ℕ → ℕ → Option Block
block f n = some (record { free_proc = f; ref_count = n })

-- The last release has called the free procedure with the data; the other blocks are as before, and
-- Itcl_Free accepts the block.
pub record IsFreed (p f : ℕ) (m m' : Memory) : Type 0 where
  pub calls : m'.called ≡ m.called ++ (f, p) ∷ []
  pub others : (q : ℕ) → (q == p) ≡ false → m'.blocks q ≡ m.blocks q
  pub can_free : (t : Memory) × (free (some p) m' ≡ some t)

at-write : (p : ℕ) (b : Option Block) (m : Memory) → (write p b m).blocks p ≡ b
unfolding write
at-write p b m = ground arith

IsFreed-write :
    (p f : ℕ) (b : Option Block) (m m' : Memory) → IsFreed p f (write p b m) m' → IsFreed p f m m'
unfolding write
IsFreed-write p f b m m' h = record {
  calls = h.calls;
  others = λ q e. h.others q e ∙ ground (arith, e);
  can_free = h.can_free;
}

preserve-step :
    (p f n : ℕ) (m : Memory)
    → m.blocks p ≡ block (some f) n
    → preserve_data (some p) m ≡ some (write p (block (some f) (n + 1)) m)
unfolding preserve_data on_block preserve_block
preserve-step p f n m e = ap (on_found preserve_block p m) e

release-step :
    (p f n : ℕ) (m : Memory)
    → m.blocks p ≡ block (some f) n
    → ltb 1 n ≡ true
    → release_data (some p) m ≡ some (write p (block (some f) (n - 1)) m)
unfolding release_data on_block release_block release_counted
release-step p f n m e h = ap (on_found release_block p m) e ∙ ground (arith, h)

abbrev last_memory : ℕ → ℕ → Memory → Memory
last_memory p f m = record (write p (block none 0) m) { called = m.called ++ (f, p) ∷ [] }

release-last :
    (p f : ℕ) (m : Memory)
    → m.blocks p ≡ block (some f) 1
    → release_data (some p) m ≡ some (last_memory p f m)
unfolding release_data on_block release_block release_counted
release-last p f m e = ap (on_found release_block p m) e

last-IsFreed : (p f : ℕ) (m : Memory) → IsFreed p f m (last_memory p f m)
unfolding free on_block write free_block
last-IsFreed p f m = record {
  calls = refl;
  others = λ q e. ground (arith, e);
  can_free = (
    write p none (last_memory p f m),
    ap (on_found free_block p (last_memory p f m)) (at-write p _ m),
  );
}

-- Data that has a free procedure and n claims: if the claims, with those that Itcl_PreserveData adds,
-- are all taken back by the last of some calls of Itcl_ReleaseData and not earlier, then no assertion
-- fails, the free procedure is called exactly once and with the data, the other blocks stay as they
-- were, and Itcl_Free accepts the block.
pub claims-IsFreed :
    (p f n : ℕ) (c : Claim) (cs : List Claim) (m : Memory)
    → m.blocks p ≡ block (some f) n
    → balanced n (c ∷ cs) ≡ true
    → (m' : Memory) × (claims p (c ∷ cs) m ≡ some m') × IsFreed p f m m'
claims-IsFreed p f n preserve [] m e h = ground (arith, h)
claims-IsFreed p f n preserve (d ∷ cs) m e h =
    let m₁ = write p (block (some f) (n + 1)) m in
    let (m', r, k) = claims-IsFreed p f (n + 1) d cs m₁ (at-write p _ m) h in
    (
      m',
      ap (and_then (claims p (d ∷ cs))) (preserve-step p f n m e) ∙ r,
      IsFreed-write p f _ m m' k,
    )
claims-IsFreed p f n release [] m e h = (
  last_memory p f m,
  ap (and_then (claims p [])) (release-last p f m (e ∙ ap (block (some f)) (ground (arith, h)))),
  last-IsFreed p f m,
)
claims-IsFreed p f n release (d ∷ cs) m e h =
    let m₁ = write p (block (some f) (n - 1)) m in
    let (m', r, k) = claims-IsFreed p f (n - 1) d cs m₁ (at-write p _ m) (ground (arith, h)) in
    (
      m',
      ap (and_then (claims p (d ∷ cs))) (release-step p f n m e (ground (arith, h))) ∙ r,
      IsFreed-write p f _ m m' k,
    )
