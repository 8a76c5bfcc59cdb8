-- ===== src/State/Trap.antt =====
-- The privilege stack, pending interrupts and the entry into a trap (src/riscv_core_state.C).
use dimebox.Common.{
  ℕ, Bool, true, false, not, ◌&&◌, ◌||◌, ◌+◌, ◌-◌, ◌*◌, ◌^◌, Option, none, some, bit_and, bit_or,
  ◌==◌, ◌!=◌, ◌>>>◌, ◌<<<◌, u64, not64, if◌then◌else◌, ◌|>◌,
}
use dimebox.Exceptions.{SimException, cause}
use dimebox.State.{
  RiscvState, mstatus, set_mstatus, current_privilege_level, set_privilege_level, machine_mode,
  set_pc, low_power_mode, clear_low_power_mode, set_low_power_mode, compressed_extension_enabled,
  global_interrupts_enabled,
}

-- `mstatus &= ~0xc88` clears bits 11, 10, 7 and 3.
unfoldable pub push_privilege_level : RiscvState → RiscvState
push_privilege_level s =
    let old = mstatus s in
    let mie = bit_and (old >>> 3) 1 in
    let cleared = bit_and old (2 ^ 32 - 1 - 0xc88) in
    s
    |> set_mstatus (bit_or (bit_or cleared (current_privilege_level s <<< 11)) (mie <<< 7))
    |> set_privilege_level machine_mode

unfoldable pub pop_privilege_level : RiscvState → RiscvState
pop_privilege_level s =
    let old = mstatus s in
    let mpie = bit_and (old >>> 7) 1 in
    let mpp = bit_and (old >>> 11) 3 in
    let cleared = bit_and old (2 ^ 32 - 1 - 0x1888) in
    s |> set_privilege_level mpp |> set_mstatus (bit_or (bit_or cleared (mpie <<< 3)) 0x80)

-- The interrupt to service, if one is pending: the result and the out argument of InterruptPending.
unfoldable pub interrupt_pending : RiscvState → Option SimException
interrupt_pending s =
    if not (global_interrupts_enabled s) || (s.mip == 0 || s.mie == 0)
    then none
    else if (bit_and (s.mip >>> 11) 1 != 0) && (bit_and (s.mie >>> 11) 1 != 0)
    then some SimException.machine_external_int
    else if (bit_and (s.mip >>> 7) 1 != 0) && (bit_and (s.mie >>> 7) 1 != 0)
    then some SimException.machine_timer_int
    else none

unfoldable pub signal : SimException → RiscvState → RiscvState
signal SimException.machine_timer_int s = record s { mip = bit_or s.mip (1 <<< 7) }
signal SimException.machine_external_int s = record s { mip = bit_or s.mip (1 <<< 11) }
signal _ s = s

unfoldable pub ready : RiscvState → Bool
unfolding interrupt_pending
ready s =
    not s.end_test
    && (not (low_power_mode s) || elim (interrupt_pending s) [ none ↦ false | some _ ↦ true ])

-- The case of the two interrupts.
unfoldable pub take_interrupt : ℕ → SimException → RiscvState → RiscvState
take_interrupt cause_bit e s =
    record s { mip = bit_and s.mip (not64 (1 <<< cause_bit)) }
    |> clear_low_power_mode
    |> push_privilege_level
    |> (λ t. record t { mcause = bit_or (cause e) 0x80000000; mtval = 0; mepc = t.pc })
    |> (λ t. set_pc (u64 (t.mtvec + bit_and t.mcause 0xfffffff * 4)) t)

unfoldable pub enter_low_power : SimException → RiscvState → RiscvState
enter_low_power e s =
    record s { mcause = cause e; mtval = 0; mepc = u64 (s.pc + 4) } |> set_low_power_mode

unfoldable pub return_from_trap : RiscvState → RiscvState
return_from_trap s =
    let t = pop_privilege_level s in
    set_pc (if compressed_extension_enabled t then t.mepc else bit_and t.mepc (not64 3)) t

unfoldable pub env_call : SimException → RiscvState → RiscvState
env_call e s =
    push_privilege_level s
    |> (λ t. record t { mcause = cause e; mtval = 0; mepc = t.pc })
    |> (λ t. set_pc t.mtvec t)

-- MTVAL was set where the address was found to be misaligned.
unfoldable pub misaligned_fetch : SimException → RiscvState → RiscvState
misaligned_fetch e s =
    push_privilege_level (record s { mcause = cause e })
    |> (λ t. record t { mepc = t.pc })
    |> (λ t. set_pc t.mtvec t)

unfoldable pub illegal : SimException → RiscvState → RiscvState
illegal e s =
    push_privilege_level (record s { mcause = cause e; mtval = 0 })
    |> (λ t. record t { mepc = t.pc })
    |> (λ t. set_pc t.mtvec t)

-- `none` is the std::runtime_error of the default case.
unfoldable pub process_exception : SimException → RiscvState → Option RiscvState
process_exception SimException.machine_timer_int s =
    some (take_interrupt 7 SimException.machine_timer_int s)
process_exception SimException.machine_external_int s =
    some (take_interrupt 11 SimException.machine_external_int s)
process_exception SimException.process_wfi s = some (enter_low_power SimException.process_wfi s)
process_exception SimException.process_mret s = some (return_from_trap s)
process_exception SimException.env_call_umode s = some (env_call SimException.env_call_umode s)
process_exception SimException.env_call_mmode s = some (env_call SimException.env_call_mmode s)
process_exception SimException.instruction_address_misaligned s =
    some (misaligned_fetch SimException.instruction_address_misaligned s)
process_exception SimException.illegal_instruction_unknown_instr s =
    some (illegal SimException.illegal_instruction_unknown_instr s)
process_exception SimException.illegal_instruction_unimpl_instr s =
    some (illegal SimException.illegal_instruction_unimpl_instr s)
process_exception SimException.illegal_instruction_privileged_instr s =
    some (illegal SimException.illegal_instruction_privileged_instr s)
process_exception SimException.illegal_instruction_unknown_csr s =
    some (illegal SimException.illegal_instruction_unknown_csr s)
process_exception SimException.illegal_instruction_privileged_csr s =
    some (illegal SimException.illegal_instruction_privileged_csr s)
process_exception _ s = none
