-- ===== src/Exceptions.antt =====
-- include/exceptions.h: the simulator's exceptions and interrupts, and their numbers.
use dimebox.Common.{ℕ, bit_and}

pub data SimException : Type 0 where
  supervisor_swi machine_swi supervisor_timer_int machine_timer_int : SimException
  supervisor_external_int machine_external_int machine_external_int_uart : SimException
  instruction_address_misaligned instruction_access_fault illegal_instruction : SimException
  illegal_instruction_unknown_csr illegal_instruction_privileged_csr : SimException
  illegal_instruction_unknown_instr illegal_instruction_unimpl_instr : SimException
  illegal_instruction_privileged_instr breakpoint load_address_misaligned : SimException
  load_access_fault store_address_misaligned store_access_fault env_call_umode : SimException
  env_call_smode env_call_mmode instruction_page_fault load_page_fault : SimException
  store_page_fault process_wfi process_mret internal_error generation_error : SimException
  test_passes test_fails : SimException

-- The enumerator NO_SIM_EXCEPTION has the number of INSTRUCTION_ADDRESS_MISALIGNED, so in the
-- program the two are one value.
abbrev pub no_sim_exception : SimException
no_sim_exception = instruction_address_misaligned

unfoldable pub number : SimException → ℕ
number supervisor_swi = 0x11
number machine_swi = 0x13
number supervisor_timer_int = 0x15
number machine_timer_int = 0x17
number supervisor_external_int = 0x19
number machine_external_int = 0x1b
number machine_external_int_uart = 0x11b
number instruction_address_misaligned = 0
number instruction_access_fault = 1
number illegal_instruction = 2
number illegal_instruction_unknown_csr = 0x102
number illegal_instruction_privileged_csr = 0x202
number illegal_instruction_unknown_instr = 0x302
number illegal_instruction_unimpl_instr = 0x402
number illegal_instruction_privileged_instr = 0x502
number breakpoint = 3
number load_address_misaligned = 4
number load_access_fault = 5
number store_address_misaligned = 6
number store_access_fault = 7
number env_call_umode = 8
number env_call_smode = 9
number env_call_mmode = 11
number instruction_page_fault = 12
number load_page_fault = 13
number store_page_fault = 15
number process_wfi = 0x600
number process_mret = 0x700
number internal_error = 0xf00
number generation_error = 0xf01
number test_passes = 0xf02
number test_fails = 0xf03

-- `sim_exception & 0xf`, the architecture's cause.
unfoldable pub cause : SimException → ℕ
unfolding number
cause e = bit_and (number e) 0xf
