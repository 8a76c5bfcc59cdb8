-- ===== src/Physical/Access.antt =====
-- Write and Read of a block, by what it holds.
use dimebox.Common.{
  ℕ, zero, suc, Bool, true, false, not, ◌&&◌, ◌||◌, ◌+◌, ◌-◌, ◌<◌, ◌≤◌, ◌≡◌, refl, ap, arith, ◌∙◌,
  ◌==◌, ltb, leb, if◌then◌else◌, none, some, Bool-cases, eq_of_==, inl, inr,
}
use dimebox.Physical.Block.{
  MemBlock, Drawn, BlockOutcome, returned, split_access, mem_error, byte_is_free, write_loop,
  allocate_block, allocate_init_block, count_used, byte_count, block_size, validate_access, offset,
  write, read,
}
use dimebox.Physical.Bytes.{
  contents, in_range, contents-write_loop, contents-allocate_block, allocate_block-allocated,
  allocate_init_block-SameCurrent, SameCurrent-contents,
}

module _ {A : Type 0} where
  pub validate_access-valid :
      (at n : ℕ) (rest : BlockOutcome A) → 0 < n → at + n ≤ 32 → validate_access at n rest ≡ rest
  unfolding validate_access
  validate_access-valid at n rest some_bytes fits =
      let inside : leb block_size at ≡ false = ground arith in
      let sized : ((n == 0) || ltb block_size n) ≡ false = ground arith in
      let whole : ltb block_size (at + n) ≡ false = ground arith in rw (inside, sized, whole) refl

  pub validate_access-split :
      (at n : ℕ) (rest : BlockOutcome A)
      → at < 32
      → n ≤ 32
      → 32 < at + n
      → validate_access at n rest ≡ split_access
  unfolding validate_access
  validate_access-split at n rest inside small crosses =
      let starts : leb block_size at ≡ false = ground arith in
      let sized : ((n == 0) || ltb block_size n) ≡ false = ground arith in
      let beyond : ltb block_size (at + n) ≡ true = ground arith in rw (starts, sized, beyond) refl

-- A byte that a block holds is in use.
held :
    (allocated free : Bool) (x v : ℕ)
    → (if allocated && not free then some x else none) ≡ some v
    → (free ≡ false) × (x ≡ v)
held true false x v h = (refl, cc)
held true true x v h = cc
held false free x v h = cc

pub contents-held :
    (b : MemBlock) (j v : ℕ) → contents b j ≡ some v → (byte_is_free j b ≡ false) × (b.mptr j ≡ v)
contents-held b j v h = held b.mptr_allocated (byte_is_free j b) (b.mptr j) v h

count_used-pos :
    (n i j : ℕ) (b : MemBlock) → i ≤ j → j < i + n → byte_is_free j b ≡ false → 0 < count_used n i b
unfolding count_used
count_used-pos zero i j b low high used = omega arith
count_used-pos (suc n) i j b low high used = elim (Bool-cases (i == j)) [
  | inl same ↦
      let first : byte_is_free i b ≡ false =
        ap (λ (t : ℕ). byte_is_free t b) (eq_of_== i j same) ∙ used in
      rw first (omega arith)
  | inr other ↦
      let rest = count_used-pos n (i + 1) j b (ground arith) (omega arith) used in omega arith
]

nonzero : (n : ℕ) → 0 < n → (n == 0) ≡ false
nonzero n h = ground arith

-- A block in use is not empty.
pub byte_count-held :
    (b : MemBlock) (j v : ℕ) → j < 32 → contents b j ≡ some v → (byte_count b == 0) ≡ false
unfolding byte_count
byte_count-held b j v h held_byte =
    nonzero (count_used block_size 0 b) (
      count_used-pos block_size 0 j b (omega arith) (omega arith) (contents-held b j v held_byte).0)

module _ (rand : ℕ → ℕ) where
  -- A block that is ready for an access holds what it held.
  unfoldable pub ready : Drawn → Drawn
  ready d = allocate_init_block rand (record d { block = allocate_block d.block })

  pub ready-contents :
      (d : Drawn) (j : ℕ) → j < 64 → contents (ready d).block j ≡ contents d.block j
  unfolding ready
  ready-contents d j h =
      SameCurrent-contents (allocate_block d.block) (ready d).block j
        (allocate_init_block-SameCurrent rand (record d { block = allocate_block d.block }))
      ∙ contents-allocate_block d.block j h

  ready-allocated : (d : Drawn) → (ready d).block.mptr_allocated ≡ true
  unfolding ready
  ready-allocated d =
      (allocate_init_block-SameCurrent rand
        (record d { block = allocate_block d.block })).same_allocated
      ∙ allocate_block-allocated d.block

  abbrev written : ℕ → (ℕ → ℕ) → ℕ → Bool → Drawn → MemBlock
  written at buffer n initial d = write_loop n 0 at buffer initial (ready d).block

  written-contents :
      (at : ℕ) (buffer : ℕ → ℕ) (n : ℕ) (initial : Bool) (d : Drawn) (j : ℕ)
      → at + n ≤ 32
      → j < 32
      → contents (written at buffer n initial d) j
        ≡ (if in_range at n j then some (buffer (j - at)) else contents d.block j)
  written-contents at buffer n initial d j fits h =
      let start : at + 0 ≡ at = omega arith in
      contents-write_loop n 0 at j buffer initial (ready d).block (omega arith) (omega arith)
        (ready-allocated d)
      ∙ ap (λ t. if in_range t n j then some (buffer (j - at)) else contents (ready d).block j)
          start
      ∙ ap (λ t. if in_range at n j then some (buffer (j - at)) else t)
          (ready-contents d j (omega arith))

  written-used :
      (at : ℕ) (buffer : ℕ → ℕ) (n : ℕ) (initial : Bool) (d : Drawn)
      → 0 < n
      → at + n ≤ 32
      → (byte_count (written at buffer n initial d) == 0) ≡ false
  written-used at buffer n initial d some_bytes fits =
      let here : in_range at n at ≡ true = ground arith in
      byte_count-held (written at buffer n initial d) at (buffer (at - at)) (omega arith) (
        written-contents at buffer n initial d at fits (omega arith)
        ∙ ap (λ t. if t then some (buffer (at - at)) else contents d.block at) here)

  write-returned :
      (address : ℕ) (buffer : ℕ → ℕ) (n : ℕ) (initial : Bool) (d : Drawn)
      → 0 < n
      → offset address + n ≤ 32
      → write rand address buffer n initial d
        ≡ returned (record (ready d) { block = written (offset address) buffer n initial d })
  unfolding write ready
  write-returned address buffer n initial d some_bytes fits =
      validate_access-valid (offset address) n _ some_bytes fits
      ∙ ap
          (λ t.
            if t
            then mem_error
            else returned
                (record (ready d) { block = written (offset address) buffer n initial d }))
          (written-used (offset address) buffer n initial d some_bytes fits)

  -- A write inside of a block succeeds, and the block holds the bytes that are written, and
  -- otherwise what it held.
  pub write_lem :
      (address : ℕ) (buffer : ℕ → ℕ) (n : ℕ) (initial : Bool) (d : Drawn)
      → 0 < n
      → offset address + n ≤ 32
      → (e : Drawn) × (write rand address buffer n initial d ≡ returned e)
        × ((j : ℕ)
            → j < 32
            → contents e.block j ≡ (
                if in_range (offset address) n j
                then some (buffer (j - offset address))
                else contents d.block j))
  write_lem address buffer n initial d some_bytes fits = (
    record (ready d) { block = written (offset address) buffer n initial d },
    write-returned address buffer n initial d some_bytes fits,
    λ j h. written-contents (offset address) buffer n initial d j fits h,
  )

  -- A write over the end of a block is thrown back.
  pub write-split :
      (address : ℕ) (buffer : ℕ → ℕ) (n : ℕ) (initial : Bool) (d : Drawn)
      → offset address < 32
      → n ≤ 32
      → 32 < offset address + n
      → write rand address buffer n initial d ≡ split_access
  unfolding write
  write-split address buffer n initial d inside small crosses =
      validate_access-split (offset address) n _ inside small crosses

  pub read-split :
      (address : ℕ) (buffer : ℕ → ℕ) (n : ℕ) (init : Bool) (d : Drawn)
      → offset address < 32
      → n ≤ 32
      → 32 < offset address + n
      → read rand address buffer n init d ≡ split_access
  unfolding read
  read-split address buffer n init d inside small crosses =
      validate_access-split (offset address) n _ inside small crosses
