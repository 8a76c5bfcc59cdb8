-- ===== src/Memory/Files.antt =====
-- SetFileBlockAddresses and ReadInitialState (src/memory.C): which blocks are written to a file.
use dimebox.Common.{ℕ, Bool, true, false, ◌==◌, bit_and, if◌then◌else◌, List, [], ◌∷◌, ◌++◌}
use dimebox.Physical.Block as Block
use dimebox.Physical.Store as Store
use dimebox.Memory.{Memory, Result, value, block_error}
use dimebox.Memory.Devices.{Buffer}

unfoldable pub contains : ℕ → List ℕ → Bool
contains a [] = false
contains a (b ∷ blocks) = if a == b then true else contains a blocks

-- The loop over the blocks of a test; `all` are the addresses that it has met.
unfoldable pub file_blocks : ℕ → List ℕ → List ℕ → List ℕ → List ℕ
unfolding contains
file_blocks address_mask [] all file_block_addresses = file_block_addresses
file_blocks address_mask (address ∷ rest) all file_block_addresses =
    let block_address = bit_and address address_mask in
    let known = file_blocks address_mask rest all file_block_addresses in
    let added =
      file_blocks address_mask rest (block_address ∷ all)
        (file_block_addresses ++ block_address ∷ []) in
    if contains block_address all then known else added

unfoldable pub set_file_block_addresses : List ℕ → List ℕ → ℕ → List ℕ
unfolding file_blocks
set_file_block_addresses file_block_addresses test_block_addresses address_mask =
    file_blocks address_mask test_block_addresses [] file_block_addresses

module _ (rand : ℕ → ℕ) where
  unfoldable pub read_initial_state : ℕ → Bool → Memory → Result Buffer
  unfolding Store.read_initial_state
  read_initial_state section_address is_data m =
      elim (Store.read_initial_state rand section_address is_data m.phys_mem) [
        | Block.returned bytes ↦ value bytes
        | Block.split_access ↦ block_error
        | Block.mem_error ↦ block_error
      ]
