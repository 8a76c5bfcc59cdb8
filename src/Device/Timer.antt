-- ===== src/Device/Timer.antt =====
-- MachineTimer: include/timer.h, src/timer.C, and the base class of include/memmap_device.h.
use dimebox.Common.{
  ℕ, Bool, true, false, ◌&&◌, ◌+◌, bit_and, bit_or, ◌<<<◌, ◌>>>◌, ◌==◌, ◌!=◌, leb, u64,
  if◌then◌else◌, Option, none, some,
}

-- The register index, with the value of a reserved or misaligned address.
pub data Register : Type 0 where
  timer_lo timer_hi timer_compare_lo timer_compare_hi timer_reserved : Register

pub record MachineTimer : Type 0 where
  pub base_address : ℕ
  pub extent : ℕ
  pub is_implemented : Bool
  pub timer : ℕ
  pub timer_advance : ℕ
  pub timer_compare : ℕ

unfoldable pub new_timer : ℕ → MachineTimer
new_timer timer_advance = record {
  base_address = 0;
  extent = 0;
  is_implemented = false;
  timer = 0;
  timer_advance = timer_advance;
  timer_compare = 0;
}

unfoldable pub reset : MachineTimer → MachineTimer
reset t = record t { timer = 0; timer_compare = 0 }

unfoldable pub map_device : ℕ → ℕ → MachineTimer → MachineTimer
unfolding reset
map_device base_address extent t =
    reset (record t { base_address = base_address; extent = extent; is_implemented = true })

unfoldable pub in_range : ℕ → MachineTimer → Bool
in_range pa t = leb t.base_address pa && leb pa (u64 (t.base_address + 0xffc))

unfoldable pub register_index : ℕ → Register
register_index pa =
    let low = bit_and pa 0xfff in
    if low == 0x000
    then Register.timer_lo
    else if low == 0x004
    then Register.timer_hi
    else if low == 0x010
    then Register.timer_compare_lo
    else if low == 0x014
    then Register.timer_compare_hi
    else Register.timer_reserved

unfoldable pub is_mapped : ℕ → Bool
unfolding register_index
is_mapped pa = elim (register_index pa) [ Register.timer_reserved ↦ false | _ ↦ true ]

unfoldable pub advance_timer : MachineTimer → MachineTimer
advance_timer t = record t { timer = u64 (t.timer + t.timer_advance) }

unfoldable pub interrupt_pending : MachineTimer → Bool
interrupt_pending t = (t.timer_compare != 0) && leb t.timer_compare t.timer

-- Read of a register: `none` is the return code -1.
unfoldable pub read_register : Register → MachineTimer → Option ℕ
read_register Register.timer_lo t = some (bit_and t.timer 0xffffffff)
read_register Register.timer_hi t = some (t.timer >>> 32)
read_register Register.timer_compare_lo t = some (bit_and t.timer 0xffffffff)
read_register Register.timer_compare_hi t = some (t.timer >>> 32)
read_register Register.timer_reserved t = none

unfoldable pub write_register : Register → ℕ → MachineTimer → Option MachineTimer
write_register Register.timer_lo rval t = some (record t { timer = rval })
write_register Register.timer_hi rval t = some (record t { timer = bit_or t.timer (rval <<< 32) })
write_register Register.timer_compare_lo rval t = some (record t { timer_compare = rval })
write_register Register.timer_compare_hi rval t =
    some (record t { timer_compare = bit_or t.timer_compare (rval <<< 32) })
write_register Register.timer_reserved rval t = none

-- Only words are accessed.
unfoldable pub read : ℕ → ℕ → MachineTimer → Option ℕ
unfolding register_index read_register
read pa access_size t = if access_size != 4 then none else read_register (register_index pa) t

unfoldable pub write : ℕ → ℕ → ℕ → MachineTimer → Option MachineTimer
unfolding register_index write_register
write pa rval access_size t =
    if access_size != 4 then none else write_register (register_index pa) rval t
