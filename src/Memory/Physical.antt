-- ===== src/Memory/Physical.antt =====
-- WritePhysicalMemory and ReadPhysicalMemory (src/memory.C): the addresses are checked, and then a
-- device is accessed or the physical memory. The number of bytes is not negative.
use dimebox.Common.{ℕ, Bool, ◌+◌, ◌-◌, ◌^◌, u64, none, some}
use dimebox.Physical.Store.{Store}
use dimebox.Physical.Block as Block
use dimebox.Physical.Store as Store
use dimebox.Memory.{Memory, Result, value, thrown, block_error, validate_physical_memory_address}
use dimebox.Memory.Devices.{Buffer, write_devices, read_devices}

-- Both ends of the access: the first address, with the upper bits stripped.
unfoldable pub validate_access : ℕ → ℕ → Bool → Memory → Result ℕ
unfolding validate_physical_memory_address
validate_access address_in number_of_bytes for_test m =
    elim (validate_physical_memory_address address_in for_test m) [
      | value address ↦
          elim (validate_physical_memory_address (u64 (address + number_of_bytes + (2 ^ 64 - 1)))
            for_test m) [
              | value _ ↦ value address
              | thrown e ↦ thrown e
              | block_error ↦ block_error
            ]
      | thrown e ↦ thrown e
      | block_error ↦ block_error
    ]

-- The bytes that a read of the physical memory gives, and its code.
abbrev pub Bytes : Type 0
Bytes = ℕ × Buffer

module _ (rand : ℕ → ℕ) where
  unfoldable pub store_outcome : Block.BlockOutcome Store.Store → Memory → Result ℕ × Memory
  store_outcome (Block.returned s) m = (value 0, record m { phys_mem = s })
  store_outcome Block.split_access m = (block_error, m)
  store_outcome Block.mem_error m = (block_error, m)

  unfoldable pub write_at : ℕ → ℕ → Buffer → Bool → Bool → Memory → Result ℕ × Memory
  unfolding write_devices Store.write store_outcome
  write_at address number_of_bytes buffer for_test initial_values m =
      elim (write_devices address buffer number_of_bytes for_test m.devices) [
        | none ↦
            store_outcome
              (Store.write rand address buffer number_of_bytes initial_values m.phys_mem) m
        | some (rcode, devices) ↦ (value rcode, record m { devices = devices })
      ]

  unfoldable pub write_physical_memory : ℕ → ℕ → Buffer → Bool → Bool → Memory → Result ℕ × Memory
  unfolding validate_access write_at
  write_physical_memory address_in number_of_bytes buffer for_test initial_values m =
      elim (validate_access address_in number_of_bytes for_test m) [
        | value address ↦ write_at address number_of_bytes buffer for_test initial_values m
        | thrown e ↦ (thrown e, m)
        | block_error ↦ (block_error, m)
      ]

  unfoldable pub read_outcome :
      Block.BlockOutcome (ℕ × (Buffer × Store.Store)) → Memory → Result Bytes × Memory
  read_outcome (Block.returned (code, (bytes, s))) m =
      (value (code, bytes), record m { phys_mem = s })
  read_outcome Block.split_access m = (block_error, m)
  read_outcome Block.mem_error m = (block_error, m)

  unfoldable pub read_at : ℕ → ℕ → Buffer → Bool → Bool → Memory → Result Bytes × Memory
  unfolding read_devices Store.read read_outcome
  read_at address number_of_bytes buffer for_test init_if_free m =
      elim (read_devices address buffer number_of_bytes for_test m.devices) [
        | none ↦
            read_outcome (Store.read rand address buffer init_if_free number_of_bytes m.phys_mem) m
        | some (rcode, (bytes, devices)) ↦ (value (rcode, bytes), record m { devices = devices })
      ]

  unfoldable pub read_physical_memory :
      ℕ → ℕ → Buffer → Bool → Bool → Memory → Result Bytes × Memory
  unfolding validate_access read_at
  read_physical_memory address_in number_of_bytes buffer for_test init_if_free m =
      elim (validate_access address_in number_of_bytes for_test m) [
        | value address ↦ read_at address number_of_bytes buffer for_test init_if_free m
        | thrown e ↦ (thrown e, m)
        | block_error ↦ (block_error, m)
      ]
