-- ===== src/Memory/Tests.antt =====
-- The theorems on the memory at a concrete core and memory.
use dimebox.Common.{ℕ, true, false, ◌≡◌, ◌-◌, ◌^◌, [], ◌∷◌}
use dimebox.Monitor.{ExclMonitor}
use dimebox.State.{State}
use dimebox.Physical.Block.{MemBlock}
use dimebox.Memory.{Memory}
use dimebox.Memory.Exclusive.{set_exclusive_monitor, is_exclusive, clear_exclusive_monitor}
use dimebox.Memory.Files.{set_file_block_addresses, contains}
use dimebox.Memory.ExclusiveLaws.{is_exclusive-set_exclusive_monitor}
use dimebox.Memory.FileLaws.{set_file_block_addresses-masked, no_duplicates, masked}

abbrev open_monitor : ExclMonitor
open_monitor = record { la = 0; pa = 0; cpu_id = 2 ^ 32 - 1; elem_size = 0; exclusive = false }

abbrev empty_block : MemBlock
empty_block = record {
  mptr_allocated = false;
  mptr = λ i. 0;
  init_allocated = false;
  mptr_init = λ i. 0;
  free_bytes = 0;
  initial_byte_value = 0;
}

abbrev pub memory : Memory
memory = record {
  size_in_bits = 32;
  global_monitor = open_monitor;
  phys_mem = record { blocks = λ a. empty_block; draws = 0 };
  instr_blocks = [];
  data_blocks = [];
  physical_address_lo = 0;
  physical_address_hi = 2 ^ 32 - 1;
  devices = [];
}

abbrev core : ℕ → State
core id = record {
  id = id;
  asid = 0;
  is_secure = true;
  clock = 0;
  end_test = false;
  pc = 0;
  instr_count = 0;
  timer = 0;
  local_monitor = open_monitor;
}

is_exclusive-set_exclusive_monitor_example :
    (let (marked, after) = set_exclusive_monitor 0x80 4 true (core 0) memory in
      (is_exclusive 0x80 4 true (core 1) after ≡ false)
      × (is_exclusive 0x80 4 true (clear_exclusive_monitor marked) after ≡ true))
is_exclusive-set_exclusive_monitor_example =
    is_exclusive-set_exclusive_monitor 0x80 4 0x80 4 true true (core 0) (core 1) memory

set_file_block_addresses-masked_example :
    (let blocks = set_file_block_addresses [] (0x24 ∷ 0x38 ∷ 0x44 ∷ []) 0xffffffe0 in
      ((a : ℕ) → contains a blocks ≡ contains a (masked 0xffffffe0 (0x24 ∷ 0x38 ∷ 0x44 ∷ [])))
      × (no_duplicates blocks ≡ true))
set_file_block_addresses-masked_example =
    set_file_block_addresses-masked 0xffffffe0 (0x24 ∷ 0x38 ∷ 0x44 ∷ [])
