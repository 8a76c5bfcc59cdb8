-- ===== src/Memory/Region.antt =====
-- LogRegionAccess, InvalidRegionAccess and RegionAccess (src/memory.C). NO_MIXED_ACCESSES is not
-- defined, so that no access to a region is invalid.
use dimebox.Common.{
  ℕ, Bool, false, not, ◌&&◌, ◌||◌, ◌+◌, ◌-◌, ◌^◌, bit_and, not64, ◌==◌, u64, if◌then◌else◌, List,
  [], ◌∷◌,
}
use dimebox.Exceptions.{generation_error}
use dimebox.Memory.{Memory, Result, thrown}
use dimebox.Memory.Devices.{Buffer}
use dimebox.Memory.Physical.{Bytes, write_physical_memory, read_physical_memory}

abbrev pub data_access : ℕ
data_access = 1

unfoldable insert_block : ℕ → List ℕ → List ℕ
insert_block a [] = a ∷ []
insert_block a (b ∷ blocks) = if a == b then b ∷ blocks else b ∷ insert_block a blocks

unfoldable log_region_access : ℕ → ℕ → Memory → Memory
unfolding insert_block
log_region_access address instr_vs_data m =
    let block_address = bit_and address (not64 31) in
    if instr_vs_data == data_access
    then record m { data_blocks = insert_block block_address m.data_blocks }
    else record m { instr_blocks = insert_block block_address m.instr_blocks }

-- Neither is there a block that is not data.
unfoldable access_type : ℕ → ℕ
access_type address = data_access

unfoldable invalid_region_access : ℕ → ℕ → ℕ → Memory → ℕ
invalid_region_access address instr_vs_data number_of_bytes m = 0

-- Both ends of the access, for a test.
unfoldable region_is_invalid : ℕ → ℕ → ℕ → Memory → Bool
unfolding invalid_region_access
region_is_invalid pa instr_vs_data byte_count m =
    not (invalid_region_access pa instr_vs_data byte_count m == 0)
    || not (invalid_region_access (u64 (pa + byte_count + (2 ^ 64 - 1))) instr_vs_data 1 m == 0)

unfoldable log_both : ℕ → ℕ → ℕ → Memory → Memory
unfolding log_region_access
log_both pa instr_vs_data byte_count m =
    log_region_access (u64 (pa + byte_count + (2 ^ 64 - 1))) instr_vs_data
      (log_region_access pa instr_vs_data m)

module _ (rand : ℕ → ℕ) where
  -- RegionAccess for FOR_READ; `instr_vs_data` is a `bool`, 0 or 1.
  unfoldable pub region_read : ℕ → ℕ → ℕ → Buffer → Bool → Bool → Memory → Result Bytes × Memory
  unfolding region_is_invalid log_both read_physical_memory
  region_read pa instr_vs_data byte_count buffer for_test init_if_free m =
      if for_test && region_is_invalid pa instr_vs_data byte_count m
      then (thrown generation_error, m)
      else read_physical_memory rand pa byte_count buffer for_test init_if_free
          (log_both pa instr_vs_data byte_count m)

  -- RegionAccess for FOR_WRITE.
  unfoldable pub region_write : ℕ → ℕ → ℕ → Buffer → Bool → Memory → Result ℕ × Memory
  unfolding region_is_invalid log_both write_physical_memory
  region_write pa instr_vs_data byte_count buffer for_test m =
      if for_test && region_is_invalid pa instr_vs_data byte_count m
      then (thrown generation_error, m)
      else write_physical_memory rand pa byte_count buffer for_test false
          (log_both pa instr_vs_data byte_count m)
