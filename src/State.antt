-- ===== src/State.antt =====
-- include/core_state.h and include/riscv_core_state.h: the registers of one core.
-- A register is an `unsigned long long`, hence a number below 2 ^ 64. The log of register accesses
-- (`show_updates`, `reg_updates`), which is only printed, is left out, and so is the flag that
-- marks the PC as set, which every constructor of a state raises.
pub mod Csr
pub mod Trap
pub mod Copy
pub mod Registers
pub mod Fields
pub mod Legal
pub mod Privilege
pub mod Entry
pub mod Interrupts
pub mod CsrLaws
pub mod CopyLaws
pub mod Tests
use dimebox.Common.{
  ℕ, Bool, false, ◌&&◌, ◌||◌, ◌-◌, ◌^◌, bit_and, bit_or, ◌==◌, ◌!=◌, ltb, not64, if◌then◌else◌, u64,
  ◌+◌,
}
use dimebox.Monitor.{ExclMonitor}

-- The base class `State`.
pub record State : Type 0 where
  pub id : ℕ
  pub asid : ℕ
  pub is_secure : Bool
  pub clock : ℕ
  pub end_test : Bool
  pub pc : ℕ
  pub instr_count : ℕ
  pub timer : ℕ
  pub local_monitor : ExclMonitor

-- `x` holds the 32 general purpose registers.
pub record RiscvState : Type 0 where
  pub base : State
  pub open base use *
  pub machine_state : ℕ
  pub x : ℕ → ℕ
  pub mepc : ℕ
  pub mtvec : ℕ
  pub satp : ℕ
  pub pmpaddr0 : ℕ
  pub pmpcfg0 : ℕ
  pub misa : ℕ
  pub medeleg : ℕ
  pub mideleg : ℕ
  pub mie : ℕ
  pub mstatus_reg : ℕ
  pub mstatush_reg : ℕ
  pub mcounteren : ℕ
  pub mscratch : ℕ
  pub mcause : ℕ
  pub mtval : ℕ
  pub mip : ℕ
  pub mtinst : ℕ
  pub mcycle : ℕ
  pub mcycleh : ℕ
  pub mtinstret : ℕ
  pub mtinstreth : ℕ
  pub ustatus : ℕ
  pub fflags : ℕ
  pub frm : ℕ
  pub fcsr : ℕ

abbrev pub user_mode : ℕ
user_mode = 0

abbrev pub machine_mode : ℕ
machine_mode = 3

abbrev pub defined_misa_value : ℕ
defined_misa_value = 0x40101104

unfoldable pub set_pc : ℕ → RiscvState → RiscvState
set_pc v s = record s { base = record s.base { pc = v } }

unfoldable advance_clock : RiscvState → RiscvState
advance_clock s = record s { base = record s.base { clock = u64 (s.clock + 1) } }

unfoldable increment_instr_count : RiscvState → RiscvState
increment_instr_count s = record s {
  base = record s.base { instr_count = u64 (s.instr_count + 1) };
}

-- The core's own count of time, which is not the machine timer.
unfoldable advance_timer : ℕ → RiscvState → RiscvState
advance_timer timer_increment s = record s {
  base = record s.base { timer = u64 (s.timer + timer_increment) };
}

unfoldable pub set_end_test : Bool → RiscvState → RiscvState
set_end_test b s = record s { base = record s.base { end_test = b } }

unfoldable pub update_reg : ℕ → ℕ → (ℕ → ℕ) → ℕ → ℕ
update_reg i v x j = if j == i then v else x j

-- Register 0 reads as zero, and a write to it is dropped.
unfoldable pub gp : ℕ → RiscvState → ℕ
gp i s = if i == 0 then 0 else s.x i

unfoldable pub set_gp : ℕ → ℕ → RiscvState → RiscvState
unfolding update_reg
set_gp i v s = if ltb 0 i then record s { x = update_reg i v s.x } else s

unfoldable pub mstatus : RiscvState → ℕ
mstatus s = bit_and s.mstatus_reg 0x807fffff

-- `~0x805de162` is an `unsigned int`, so the mask clears the upper half of the word too.
abbrev pub mstatus_writable : ℕ
mstatus_writable = 2 ^ 32 - 1 - 0x805de162

-- The two reserved values of MPP keep the old one.
unfoldable pub legal_mstatus : ℕ → ℕ → ℕ
legal_mstatus old v =
    let rval = bit_and v (bit_and v mstatus_writable) in
    if (bit_and rval 0x1800 == 0x800) || (bit_and rval 0x1800 == 0x1000)
    then bit_or (bit_and rval (not64 0x1800)) (bit_and old 0x1800)
    else rval

unfoldable pub set_mstatus : ℕ → RiscvState → RiscvState
unfolding legal_mstatus mstatus
set_mstatus v s = record s { mstatus_reg = legal_mstatus (mstatus s) v }

unfoldable pub mstatush : RiscvState → ℕ
mstatush s = bit_and s.mstatush_reg 0x30

unfoldable pub set_mstatush : ℕ → RiscvState → RiscvState
set_mstatush v s = record s { mstatush_reg = bit_and v (bit_and v (not64 0x30)) }

-- The C bit stays set while the PC is not a multiple of 4.
unfoldable pub set_misa : ℕ → RiscvState → RiscvState
set_misa v s =
    let rval = bit_and v defined_misa_value in
    let kept = (bit_and s.misa 4 == 4) && (bit_and s.pc 3 != 0) in
    record s { misa = if kept then bit_or rval 4 else rval }

unfoldable pub compressed_extension_enabled : RiscvState → Bool
compressed_extension_enabled s = bit_and s.misa 4 == 4

unfoldable pub global_interrupts_enabled : RiscvState → Bool
unfolding mstatus
global_interrupts_enabled s = bit_and (mstatus s) 0x8 != 0

unfoldable pub current_privilege_level : RiscvState → ℕ
current_privilege_level s = bit_and s.machine_state 3

-- `~0x3` at 32 bits.
unfoldable pub set_privilege_level : ℕ → RiscvState → RiscvState
set_privilege_level level s = record s {
  machine_state = bit_or (bit_and s.machine_state (2 ^ 32 - 1 - 3)) level;
}

unfoldable pub low_power_mode : RiscvState → Bool
low_power_mode s = bit_and s.machine_state 0x10 == 0x10

unfoldable pub clear_low_power_mode : RiscvState → RiscvState
clear_low_power_mode s = record s { machine_state = bit_and s.machine_state (2 ^ 32 - 1 - 0x10) }

unfoldable pub set_low_power_mode : RiscvState → RiscvState
set_low_power_mode s = record s { machine_state = bit_or s.machine_state 0x10 }

-- TW lets a WFI through when not in machine mode.
unfoldable pub wfi_enabled : RiscvState → Bool
unfolding current_privilege_level mstatus
wfi_enabled s = (current_privilege_level s == 3) || (bit_and (mstatus s) 0x200000 == 0x200000)

unfoldable pub record_misaligned_address : ℕ → RiscvState → RiscvState
record_misaligned_address a s = record s { mtval = a }

-- The constructor that takes a configuration: the registers that it does not set hold what
-- `uninit` holds, since nothing initialises them.
unfoldable pub initial : RiscvState → ℕ → RiscvState
unfolding set_misa set_pc
initial uninit reset_address =
    let base = record uninit.base {
      id = 0;
      asid = 0;
      is_secure = false;
      clock = 0;
      end_test = false;
      pc = reset_address;
      instr_count = 0;
      timer = 0;
    } in
    set_misa defined_misa_value
      (record uninit { base = base; x = λ _. 0; machine_state = machine_mode })
