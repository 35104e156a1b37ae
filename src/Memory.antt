-- ===== src/Memory.antt =====
-- The reference-counted data of generic/itclUtil.c. Memory is a function from addresses to blocks; an
-- assertion that fails, or a pointer to no block, gives `none`.
pub mod Claims
use itcl.Prelude.{
  ℕ, ◌+◌, ◌-◌, ◌^◌, Bool, true, false, Option, none, some, List, [], ◌∷◌, ◌++◌, ◌==◌, ltb,
  if◌then◌else◌,
}

-- `PresMemoryPrefix`
pub record Block : Type 0 where
  pub free_proc : Option ℕ
  pub ref_count : ℕ

-- The blocks, the next new address, and the calls `freeProc(cdata)` so far. What a free procedure
-- does is not part of the model; it ends with Itcl_Free.
pub record Memory : Type 0 where
  pub blocks : ℕ → Option Block
  pub next : ℕ
  pub called : List (ℕ × ℕ)

unfoldable pub write : ℕ → Option Block → Memory → Memory
write p b m = record m { blocks = λ q. if q == p then b else m.blocks q }

-- `assert (size < -sizeof(PresMemoryPrefix))`, for a size_t of 64 bits; the new block is all zero.
unfoldable pub alloc : ℕ → Memory → Option (ℕ × Memory)
unfolding write
alloc size m =
    if ltb size (2 ^ 64 - 16)
    then some (
      m.next,
      record (write m.next (some (record { free_proc = none; ref_count = 0 })) m) {
        next = m.next + 1;
      },
    )
    else none

abbrev pub on_found :
    (ℕ → Block → Memory → Option Memory) → ℕ → Memory → Option Block → Option Memory
on_found f p m none = none
on_found f p m (some b) = f p b m

-- An operation on the block that data points to, with the address; NULL is ignored.
unfoldable pub on_block : (ℕ → Block → Memory → Option Memory) → Option ℕ → Memory → Option Memory
on_block f none m = some m
on_block f (some p) m = on_found f p m (m.blocks p)

unfoldable pub eventually_free : Option ℕ → ℕ → Memory → Option Memory
unfolding on_block write
eventually_free cdata fproc =
    on_block (λ p b m. some (write p (some (record b { free_proc = some fproc })) m)) cdata

-- `++blk->refCount`
unfoldable pub preserve_block : ℕ → Block → Memory → Option Memory
unfolding write
preserve_block p b m = some (write p (some (record b { ref_count = b.ref_count + 1 })) m)

unfoldable pub preserve_data : Option ℕ → Memory → Option Memory
unfolding on_block preserve_block
preserve_data = on_block preserve_block

-- Both assertions, then `if (blk->refCount-- > 1) return;` and the call.
unfoldable pub release_counted : ℕ → ℕ → Option ℕ → Memory → Option Memory
unfolding write
release_counted p n none m = none
release_counted p n (some f) m =
    if ltb 0 n
    then some (
        if ltb 1 n
        then write p (some (record { free_proc = some f; ref_count = n - 1 })) m
        else (record (write p (some (record { free_proc = none; ref_count = n - 1 })) m) {
          called = m.called ++ (f, p) ∷ [];
        }))
    else none

unfoldable pub release_block : ℕ → Block → Memory → Option Memory
unfolding release_counted
release_block p b m = release_counted p b.ref_count b.free_proc m

unfoldable pub release_data : Option ℕ → Memory → Option Memory
unfolding on_block release_block
release_data = on_block release_block

abbrev pub never_preserved : Block → Bool
never_preserved b = elim (b.free_proc) [ none ↦ b.ref_count == 0 | some f ↦ false ]

-- Both assertions, and `ckfree(blk)`.
unfoldable pub free_block : ℕ → Block → Memory → Option Memory
unfolding write
free_block p b m = if never_preserved b then some (write p none m) else none

unfoldable pub free : Option ℕ → Memory → Option Memory
unfolding on_block free_block
free = on_block free_block
