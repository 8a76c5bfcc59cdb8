-- ===== src/Physical/Memory.antt =====
-- The store as one memory of bytes: Write and Read of PhysicalMemory, also over two blocks.
use dimebox.Common.{
  ℕ, Bool, false, ◌+◌, ◌-◌, ◌*◌, ◌/◌, ◌%◌, ◌^◌, ◌<◌, ◌≤◌, ◌≡◌, refl, sym, ap, arith, ◌∙◌, ◌==◌,
  if◌then◌else◌, some, Bool-cases, eq_of_==, inl, inr, u64, <-cases,
}
use dimebox.Physical.Block.{
  MemBlock, Drawn, BlockOutcome, returned, split_access, mem_error, block_address, offset,
  block_size, all_bytes_defined,
}
use dimebox.Physical.Block as Block
use dimebox.Physical.Bytes.{contents, in_range}
use dimebox.Physical.Access.{write_lem, write-split}
use dimebox.Physical.Store.{Store, write, write_line, block_of, set_block}
use dimebox.Physical.Held.{
  offset_lem, block_address_lem, held, overwritten, same_block_range, other_block_range,
  held-set_block, next_line, next_start, joined,
}

module _ (rand : ℕ → ℕ) where
  write_line-returned :
      (line address : ℕ) (buffer : ℕ → ℕ) (n : ℕ) (initial : Bool) (s : Store) (e : Drawn)
      → Block.write rand address buffer n initial (block_of line s) ≡ returned e
      → write_line rand line address buffer n initial s ≡ returned (set_block line e s)
  unfolding write_line
  write_line-returned line address buffer n initial s e h = rw (write_line, h) refl

  -- The block at `a` after a write into the block at `address`.
  within_line :
      (address a : ℕ) (buffer : ℕ → ℕ) (n : ℕ) (s : Store) (e : Drawn)
      → offset address + n ≤ 32
      → address < 2 ^ 64
      → a < 2 ^ 64
      → block_address a ≡ block_address address
      → contents e.block (offset a) ≡ (
          if in_range (offset address) n (offset a)
          then some (buffer (offset a - offset address))
          else contents (s.blocks (block_address address)) (offset a))
      → contents e.block (offset a) ≡ overwritten address buffer n s a
  within_line address a buffer n s e fits small h same holds =
      let lines : a / 32 ≡ address / 32 =
        omega (arith, block_address_lem a h, block_address_lem address small, same) in
      let range : in_range (offset address) n (offset a) ≡ in_range address n a =
        ap (λ (t : ℕ). in_range t n (offset a)) (offset_lem address)
        ∙ ap (λ (t : ℕ). in_range (address % 32) n t) (offset_lem a)
        ∙ same_block_range address n a (omega (arith, fits, offset_lem address)) lines in
      let index : offset a - offset address ≡ a - address =
        omega (arith, offset_lem a, offset_lem address, lines) in
      holds
      ∙ ap
          (λ t.
            if t
            then some (buffer (offset a - offset address))
            else contents (s.blocks (block_address address)) (offset a))
          range
      ∙ ap
          (λ (t : ℕ).
            if in_range address n a
            then some (buffer t)
            else contents (s.blocks (block_address address)) (offset a))
          index
      ∙ ap
          (λ (t : ℕ).
            if in_range address n a
            then some (buffer (a - address))
            else contents (s.blocks t) (offset a))
          (sym same)

  write_line-held :
      (address : ℕ) (buffer : ℕ → ℕ) (n : ℕ) (initial : Bool) (s : Store)
      → 0 < n
      → offset address + n ≤ 32
      → address < 2 ^ 64
      → (t : Store) × (write_line rand (block_address address) address buffer n initial s
          ≡ returned t)
        × ((a : ℕ) → a < 2 ^ 64 → held t a ≡ overwritten address buffer n s a)
  unfolding block_of
  write_line-held address buffer n initial s some_bytes fits small =
      let line = block_address address in
      let (e, written, holds) =
        write_lem rand address buffer n initial (block_of line s) some_bytes fits in
      (
        set_block line e s,
        write_line-returned line address buffer n initial s e written,
        λ a h. held-set_block line e s a ∙ elim (Bool-cases (block_address a == line)) [
          | inl same ↦ rw same (
              within_line address a buffer n s e fits small h (eq_of_== (block_address a) line same)
                (holds (offset a) (omega (arith, offset_lem a))))
          | inr other ↦
              let apart : (a / 32 * 32 == address / 32 * 32) ≡ false =
                ap (λ (t : ℕ). t == address / 32 * 32) (sym (block_address_lem a h))
                ∙ ap (λ (t : ℕ). block_address a == t) (sym (block_address_lem address small))
                ∙ other in
              let outside =
                other_block_range address n a (omega (arith, fits, offset_lem address)) apart in
              rw other (ap (λ t. if t then some (buffer (a - address)) else held s a) (sym outside))
        ],
      )

  write-whole :
      (address : ℕ) (buffer : ℕ → ℕ) (n : ℕ) (initial : Bool) (s t : Store)
      → write_line rand (block_address address) address buffer n initial s ≡ returned t
      → write rand address buffer n initial s ≡ returned t
  unfolding write
  write-whole address buffer n initial s t h = rw (write, h) refl

  write_line-split :
      (address : ℕ) (buffer : ℕ → ℕ) (n : ℕ) (initial : Bool) (s : Store)
      → n ≤ 32
      → 32 < offset address + n
      → write_line rand (block_address address) address buffer n initial s ≡ split_access
  unfolding write_line
  write_line-split address buffer n initial s small crosses =
      rw
        (
          write_line,
          write-split rand address buffer n initial (block_of (block_address address) s)
              (omega (arith, offset_lem address)) small crosses,
        )
        refl

  write-two :
      (address second_line next : ℕ) (buffer : ℕ → ℕ) (n : ℕ) (initial : Bool) (s t u : Store)
      → u64 (block_address address + block_size) ≡ second_line
      → u64 (address + (block_size - offset address)) ≡ next
      → write_line rand (block_address address) address buffer n initial s ≡ split_access
      → (let count = block_size - offset address in
          (write_line rand (block_address address) address buffer count initial s ≡ returned t)
          → (write_line rand second_line next (λ i. buffer (count + i)) (n - count) initial t
              ≡ returned u)
          → write rand address buffer n initial s ≡ returned u)
  unfolding write
  write-two address second_line next buffer n initial s t u line start h k l =
      rw (write, h, k, line, start, l) refl

  -- A write over two blocks is the write of both parts.
  write_both :
      (address : ℕ) (buffer : ℕ → ℕ) (n : ℕ) (initial : Bool) (s : Store)
      → n ≤ 32
      → 32 < offset address + n
      → address + n ≤ 2 ^ 64
      → (u : Store) × (write rand address buffer n initial s ≡ returned u)
        × ((a : ℕ) → a < 2 ^ 64 → held u a ≡ overwritten address buffer n s a)
  write_both address buffer n initial s small crosses bound =
      let count = block_size - offset address in
      let next = address + count in
      let at = offset_lem address in
      let line : u64 (block_address address + block_size) ≡ block_address next =
        next_line address n at crosses bound in
      let same : u64 next ≡ next = omega (arith, at) in
      let (t, first, low) =
        write_line-held address buffer count initial s (omega (arith, at)) (omega (arith, at))
          (omega arith) in
      let (u, second, high) =
        write_line-held next (λ i. buffer (count + i)) (n - count) initial t (omega (arith, at))
          (omega (arith, at, next_start address n at crosses)) (omega (arith, at)) in
      (
        u,
        write-two address (block_address next) next buffer n initial s t u line same
            (write_line-split address buffer n initial s small crosses) first second,
        λ a h.
            high a h
            ∙ ap
                (λ z. if in_range next (n - count) a then some (buffer (count + (a - next))) else z)
                (low a h)
            ∙ joined address count n buffer (held s a) a (omega (arith, at)),
      )

  -- A write of 1 to 32 bytes succeeds wherever it starts, and the memory holds the bytes that are
  -- written at their addresses, and otherwise what it held.
  pub write-held :
      (address : ℕ) (buffer : ℕ → ℕ) (n : ℕ) (initial : Bool) (s : Store)
      → 0 < n
      → n ≤ 32
      → address + n ≤ 2 ^ 64
      → (u : Store) × (write rand address buffer n initial s ≡ returned u)
        × ((a : ℕ)
            → a < 2 ^ 64
            → held u a ≡ (if in_range address n a then some (buffer (a - address)) else held s a))
  write-held address buffer n initial s some_bytes small bound =
      elim (<-cases 32 (offset address + n)) [
        | inl crosses ↦ write_both address buffer n initial s small crosses bound
        | inr fits ↦
            let (t, whole, holds) =
              write_line-held address buffer n initial s some_bytes fits (omega arith) in
            (t, write-whole address buffer n initial s t whole, holds)
      ]
