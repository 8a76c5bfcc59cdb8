-- ===== src/Physical/Store.antt =====
-- PhysicalMemory: the blocks by their addresses.
use dimebox.Common.{ℕ, Bool, ◌+◌, ◌-◌, ◌==◌, ◌!=◌, ltb, u64, if◌then◌else◌}
use dimebox.Physical.Block.{
  MemBlock, Drawn, BlockOutcome, returned, split_access, mem_error, block_address, offset,
  block_size, some_bytes_undefined,
}
use dimebox.Physical.Block as Block

-- The map: a block that is not in it yet is a new one when it is first asked for.
pub record Store : Type 0 where
  pub blocks : ℕ → MemBlock
  pub draws : ℕ

unfoldable pub block_of : ℕ → Store → Drawn
block_of address s = record { block = s.blocks address; draws = s.draws }

unfoldable pub set_block : ℕ → Drawn → Store → Store
set_block address d s = record {
  blocks = λ a. if a == address then d.block else s.blocks a;
  draws = d.draws;
}

module _ (rand : ℕ → ℕ) where
  -- A call of MemBlock::Write on the block at `line`.
  unfoldable pub write_line : ℕ → ℕ → (ℕ → ℕ) → ℕ → Bool → Store → BlockOutcome Store
  unfolding block_of set_block
  write_line line address buffer number_of_bytes initial_values s =
      elim (Block.write rand address buffer number_of_bytes initial_values (block_of line s)) [
        | returned d ↦ returned (set_block line d s)
        | split_access ↦ split_access
        | mem_error ↦ mem_error
      ]

  -- BlockWrite, and Write, which calls it: an access that crosses into the next block is made in two.
  unfoldable pub write : ℕ → (ℕ → ℕ) → ℕ → Bool → Store → BlockOutcome Store
  unfolding write_line block_address offset
  write address buffer number_of_bytes initial_values s =
      let first_line = block_address address in
      elim (write_line first_line address buffer number_of_bytes initial_values s) [
        | returned t ↦ returned t
        | split_access ↦
            (let count = block_size - offset address in
              elim (write_line first_line address buffer count initial_values s) [
                | returned t ↦
                    write_line (u64 (first_line + block_size)) (u64 (address + count))
                      (λ i. buffer (count + i)) (number_of_bytes - count) initial_values t
                | split_access ↦ split_access
                | mem_error ↦ mem_error
              ])
        | mem_error ↦ mem_error
      ]

  unfoldable pub read_line :
      ℕ → ℕ → (ℕ → ℕ) → ℕ → Bool → Store → BlockOutcome (ℕ × ((ℕ → ℕ) × Store))
  unfolding block_of set_block
  read_line line address buffer number_of_bytes init_if_free s =
      elim (Block.read rand address buffer number_of_bytes init_if_free (block_of line s)) [
        | returned (code, (bytes, d)) ↦ returned (code, (bytes, set_block line d s))
        | split_access ↦ split_access
        | mem_error ↦ mem_error
      ]

  -- Both parts of a read: the code that they share, or that some bytes are undefined.
  unfoldable pub join_parts :
      ℕ → ℕ → (ℕ → ℕ) → BlockOutcome (ℕ × ((ℕ → ℕ) × Store)) → BlockOutcome (ℕ × ((ℕ → ℕ) × Store))
  join_parts count code low second = elim second [
    | returned (code2, (high, u)) ↦ returned (
      if code == code2 then code else some_bytes_undefined,
      (λ i. if ltb i count then low i else high (i - count), u),
    )
    | split_access ↦ split_access
    | mem_error ↦ mem_error
  ]

  -- BlockRead, and Read, which calls it: the code, the buffer and the store.
  unfoldable pub read : ℕ → (ℕ → ℕ) → Bool → ℕ → Store → BlockOutcome (ℕ × ((ℕ → ℕ) × Store))
  unfolding read_line block_address offset join_parts
  read address buffer init_if_free number_of_bytes s =
      let first_line = block_address address in
      elim (read_line first_line address buffer number_of_bytes init_if_free s) [
        | returned r ↦ returned r
        | split_access ↦
            (let count = block_size - offset address in
              elim (read_line first_line address buffer count init_if_free s) [
                | returned (code, (low, t)) ↦ join_parts count code low (
                    read_line (u64 (first_line + block_size)) (u64 (address + count))
                      (λ i. buffer (count + i)) (number_of_bytes - count) init_if_free t)
                | split_access ↦ split_access
                | mem_error ↦ mem_error
              ])
        | mem_error ↦ mem_error
      ]

  unfoldable pub read_initial_state : ℕ → Bool → Store → BlockOutcome (ℕ → ℕ)
  unfolding offset
  read_initial_state address is_data s =
      if offset address != 0
      then mem_error
      else Block.read_initial_state address is_data (s.blocks address)
