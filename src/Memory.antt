-- ===== src/Memory.antt =====
-- Memory (include/memory.h, src/memory.C): the memory of a simulator, over the physical memory and
-- the devices that are mapped into it. This file has its state and the addresses that it accepts.
pub mod Devices
pub mod Physical
pub mod Region
pub mod Translation
pub mod Logical
pub mod Exclusive
pub mod Files
pub mod ExclusiveLaws
pub mod FileLaws
pub mod RoundTrip
pub mod Tests
use dimebox.Common.{
  ℕ, Bool, true, false, ◌&&◌, ◌+◌, ◌-◌, bit_and, ◌<<<◌, ◌==◌, ◌!=◌, leb, u64, if◌then◌else◌, Option,
  none, some, List, [], ◌∷◌, ◌++◌,
}
use dimebox.Exceptions.{SimException, generation_error}
use dimebox.Monitor.{ExclMonitor}
use dimebox.Physical.Store.{Store}
use dimebox.Device.Timer.{MachineTimer}
use dimebox.Device.Uart.{Uart}

-- The devices that the simulator has.
pub data Device : Type 0 where
  timer_device : MachineTimer → Device
  uart_device : Uart → Device

-- The two sets of block addresses are lists of distinct ones.
pub record Memory : Type 0 where
  pub size_in_bits : ℕ
  pub global_monitor : ExclMonitor
  pub phys_mem : Store
  pub instr_blocks : List ℕ
  pub data_blocks : List ℕ
  pub physical_address_lo : ℕ
  pub physical_address_hi : ℕ
  pub devices : List Device

-- How a call ends: with a value, with a SIM_EXCEPTIONS, or with an MBLOCK_ERROR, which physical
-- memory throws before anything is changed.
pub data Result (A : Type 0) : Type 0 where
  value : A → Result A
  thrown : SimException → Result A
  block_error : Result A

unfoldable set_physical_size : ℕ → Memory → Memory
set_physical_size size_in_bits m = record m { size_in_bits = size_in_bits }

unfoldable pub pa_mask : Memory → ℕ
pa_mask m = (1 <<< m.size_in_bits) - 1

unfoldable set_physical_address_range : ℕ → ℕ → Memory → Memory
set_physical_address_range address_lo address_hi m = record m {
  physical_address_lo = address_lo;
  physical_address_hi = address_hi;
}

unfoldable add_device : Device → Memory → Memory
add_device device m = record m { devices = m.devices ++ device ∷ [] }

-- The range, if one is set.
unfoldable pub physical_address_range : Memory → Option (ℕ × ℕ)
physical_address_range m =
    if m.physical_address_hi != m.physical_address_lo
    then some (m.physical_address_lo, m.physical_address_hi)
    else none

unfoldable pub validate_range : Option (ℕ × ℕ) → ℕ → Result ℕ
validate_range none address = value address
validate_range (some (pa_lo, pa_hi)) address =
    if leb pa_lo address && leb address pa_hi then value address else thrown generation_error

-- Upper address bits are stripped, or refused for a test.
unfoldable pub validate_physical_memory_address : ℕ → Bool → Memory → Result ℕ
unfolding pa_mask physical_address_range validate_range
validate_physical_memory_address address for_test m =
    let masked = bit_and address (pa_mask m) in
    if (masked != address) && for_test
    then thrown generation_error
    else validate_range (physical_address_range m) masked
