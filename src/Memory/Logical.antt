-- ===== src/Memory/Logical.antt =====
-- ReadMemory, WriteMemory and the accesses to one block that they make (src/memory.C). An access
-- never crosses a page, so that its second half is left out. The buffer of a call that throws is
-- left out too.
use dimebox.Common.{
  ℕ, zero, suc, Bool, true, false, not, ◌&&◌, ◌+◌, ◌-◌, ◌/◌, ◌%◌, ◌==◌, ◌!=◌, ltb, leb, u64,
  if◌then◌else◌,
}
use dimebox.Exceptions.{internal_error, no_sim_exception, number}
use dimebox.State.{State}
use dimebox.Physical.Block.{block_size}
use dimebox.Memory.{Memory, Result, value, thrown, block_error}
use dimebox.Memory.Devices.{Buffer}
use dimebox.Memory.Physical.{Bytes}
use dimebox.Memory.Region.{region_read, region_write}
use dimebox.Memory.Translation.{la2pa, page_crossed}

abbrev is_data_access : Bool → ℕ
is_data_access is_data = if is_data then 1 else 0

-- An exception of the region is thrown again, unless it is the one that stands for none.
unfoldable rethrow : {A : Type 0} → A → Result A × Memory → Result A × Memory
unfolding number
rethrow nothing (value a, m) = (value a, m)
rethrow nothing (thrown e, m) =
    (if number e == number no_sim_exception then value nothing else thrown e, m)
rethrow nothing (block_error, m) = (block_error, m)

-- The flags of an access.
pub record Mode : Type 0 where
  pub is_data : Bool
  pub privileged : Bool
  pub is_aligned : Bool
  pub for_test : Bool

-- Bytes that were read to the place `at` of a buffer.
abbrev place : ℕ → ℕ → Buffer → Buffer → Buffer
place at n bytes buffer i = if leb at i && ltb i (at + n) then bytes (i - at) else buffer i

module _ (rand : ℕ → ℕ) (cpu : State) (mode : Mode) where
  unfoldable read_memory_block : ℕ → ℕ → Buffer → Bool → Memory → Result Bytes × Memory
  unfolding la2pa page_crossed region_read rethrow
  read_memory_block la number_of_bytes buffer init_if_free m =
      let trans =
        la2pa la (not cpu.is_secure) mode.privileged mode.is_data mode.is_aligned number_of_bytes
          false cpu in
      let byte_count = number_of_bytes - page_crossed number_of_bytes trans in
      rethrow (0, buffer)
        (region_read rand trans.pa (is_data_access mode.is_data) byte_count buffer mode.for_test
          init_if_free m)

  unfoldable write_memory_block : ℕ → ℕ → Buffer → Memory → Result ℕ × Memory
  unfolding la2pa page_crossed region_write rethrow
  write_memory_block la number_of_bytes buffer m =
      let trans =
        la2pa la (not cpu.is_secure) mode.privileged mode.is_data mode.is_aligned number_of_bytes
          true cpu in
      let byte_count = number_of_bytes - page_crossed number_of_bytes trans in
      rethrow 0
        (region_write rand trans.pa (is_data_access mode.is_data) byte_count buffer mode.for_test m)

  -- A part of a longer read, unless a part before it has failed.
  unfoldable read_part : ℕ → ℕ → ℕ → Bool → Bytes → Memory → Result Bytes × Memory
  unfolding read_memory_block
  read_part la at count init_if_free (rcode, buffer) m =
      if rcode != 0
      then (value (rcode, buffer), m)
      else (let (result, after) =
            read_memory_block (u64 (la + at)) count (λ i. buffer (at + i)) init_if_free m in
          elim result [
            | value (code, bytes) ↦ (value (code, place at count bytes buffer), after)
            | thrown e ↦ (thrown e, after)
            | block_error ↦ (block_error, after)
          ])

  -- `n` blocks, from the place `at` of the buffer on, and the bytes behind them.
  unfoldable read_parts : ℕ → ℕ → ℕ → ℕ → Bool → Bytes → Memory → Result Bytes × Memory
  unfolding read_part
  read_parts zero la at extra_bytes init_if_free done m =
      if ltb 0 extra_bytes then read_part la at extra_bytes init_if_free done m else (value done, m)
  read_parts (suc n) la at extra_bytes init_if_free done m =
      let (result, after) = read_part la at block_size init_if_free done m in
      elim result [
        | value more ↦ read_parts n la (at + block_size) extra_bytes init_if_free more after
        | thrown e ↦ (thrown e, after)
        | block_error ↦ (block_error, after)
      ]

  unfoldable pub read_memory : ℕ → ℕ → Buffer → Bool → Memory → Result Bytes × Memory
  unfolding read_memory_block read_parts
  read_memory la number_of_bytes buffer init_if_free m =
      if not mode.is_data && not mode.is_aligned
      then (thrown internal_error, m)
      else if leb number_of_bytes block_size
      then read_memory_block la number_of_bytes buffer init_if_free m
      else read_parts (number_of_bytes / block_size) la 0 (number_of_bytes % block_size)
          init_if_free (0, buffer) m

  unfoldable write_part : ℕ → ℕ → ℕ → Buffer → ℕ → Memory → Result ℕ × Memory
  unfolding write_memory_block
  write_part la at count buffer rcode m =
      if rcode != 0
      then (value rcode, m)
      else write_memory_block (u64 (la + at)) count (λ i. buffer (at + i)) m

  unfoldable write_parts : ℕ → ℕ → ℕ → ℕ → Buffer → ℕ → Memory → Result ℕ × Memory
  unfolding write_part
  write_parts zero la at extra_bytes buffer rcode m =
      if ltb 0 extra_bytes then write_part la at extra_bytes buffer rcode m else (value rcode, m)
  write_parts (suc n) la at extra_bytes buffer rcode m =
      let (result, after) = write_part la at block_size buffer rcode m in
      elim result [
        | value code ↦ write_parts n la (at + block_size) extra_bytes buffer code after
        | thrown e ↦ (thrown e, after)
        | block_error ↦ (block_error, after)
      ]

  unfoldable pub write_memory : ℕ → ℕ → Buffer → Memory → Result ℕ × Memory
  unfolding write_memory_block write_parts
  write_memory la number_of_bytes buffer m =
      if not mode.is_data && not mode.is_aligned
      then (thrown internal_error, m)
      else if leb number_of_bytes block_size
      then write_memory_block la number_of_bytes buffer m
      else write_parts (number_of_bytes / block_size) la 0 (number_of_bytes % block_size) buffer 0 m
