-- ===== src/State/Entry.antt =====
-- The entry into a trap: RiscvState::ProcessException (src/riscv_core_state.C).
use dimebox.Common.{Bool, true, false, some, ◌<◌, ◌≡◌, ◌⊎◌, refl, arith, ◌∙◌, bit_and}
use dimebox.Exceptions.{SimException, cause}
use dimebox.State.{RiscvState, set_pc, compressed_extension_enabled, current_privilege_level}
use dimebox.State.Trap.{process_exception, env_call, misaligned_fetch, illegal, return_from_trap}
use dimebox.State.Fields.{mie_bit, mpie_bit, mpp}
use dimebox.State.Privilege.{
  privilege, saved_level, push_fields, pop_fields, push-SameOutside, pop-SameOutside,
}

-- The exceptions that are serviced at MTVEC. Those of the memory are not.
abbrev pub is_trap : SimException → Bool
is_trap SimException.env_call_umode = true
is_trap SimException.env_call_mmode = true
is_trap SimException.instruction_address_misaligned = true
is_trap SimException.illegal_instruction_unknown_instr = true
is_trap SimException.illegal_instruction_unimpl_instr = true
is_trap SimException.illegal_instruction_privileged_instr = true
is_trap SimException.illegal_instruction_unknown_csr = true
is_trap SimException.illegal_instruction_privileged_csr = true
is_trap _ = false

-- `t` is `s` at the entry of the handler, for the exception `e`.
pub record Entered (e : SimException) (s t : RiscvState) : Type 0 where
  pub at_vector : t.pc ≡ s.mtvec
  pub return_address : t.mepc ≡ s.pc
  pub reason : t.mcause ≡ cause e
  pub machine : privilege t ≡ 3
  pub masked : mie_bit t.mstatus_reg ≡ 0
  pub stacked : mpie_bit t.mstatus_reg ≡ mie_bit s.mstatus_reg
  pub stacked_level : mpp t.mstatus_reg ≡ saved_level s
  pub same_extensions : t.misa ≡ s.misa
  pub same_registers : t.x ≡ s.x

env_call-Entered : (e : SimException) (s : RiscvState) → Entered e s (env_call e s)
unfolding env_call set_pc current_privilege_level
env_call-Entered e s =
    let fields = push_fields s in
    let frame = push-SameOutside s in
    record {
      at_vector = frame.same_mtvec;
      return_address = frame.same_pc;
      reason = refl;
      machine = fields.0;
      masked = fields.1;
      stacked = fields.2;
      stacked_level = fields.3;
      same_extensions = frame.same_misa;
      same_registers = frame.same_x;
    }

misaligned_fetch-Entered : (e : SimException) (s : RiscvState) → Entered e s (misaligned_fetch e s)
unfolding misaligned_fetch set_pc current_privilege_level
misaligned_fetch-Entered e s =
    let fields = push_fields (record s { mcause = cause e }) in
    let frame = push-SameOutside (record s { mcause = cause e }) in
    record {
      at_vector = frame.same_mtvec;
      return_address = frame.same_pc;
      reason = frame.same_mcause;
      machine = fields.0;
      masked = fields.1;
      stacked = fields.2;
      stacked_level = fields.3;
      same_extensions = frame.same_misa;
      same_registers = frame.same_x;
    }

illegal-Entered : (e : SimException) (s : RiscvState) → Entered e s (illegal e s)
unfolding illegal set_pc current_privilege_level
illegal-Entered e s =
    let fields = push_fields (record s { mcause = cause e; mtval = 0 }) in
    let frame = push-SameOutside (record s { mcause = cause e; mtval = 0 }) in
    record {
      at_vector = frame.same_mtvec;
      return_address = frame.same_pc;
      reason = frame.same_mcause;
      machine = fields.0;
      masked = fields.1;
      stacked = fields.2;
      stacked_level = fields.3;
      same_extensions = frame.same_misa;
      same_registers = frame.same_x;
    }

-- The exceptions that are taken to the handler, namely the environment calls of user and machine
-- mode, the misaligned instruction address, and the five of illegal instructions and CSRs: each is
-- serviced, and the core stands at MTVEC in machine mode with interrupts masked, MEPC is the address of the instruction, MCAUSE is its cause, and the general
-- purpose registers are as they were.
pub process_exception-Entered :
    (e : SimException) (s : RiscvState)
    → is_trap e ≡ true
    → (t : RiscvState) × (process_exception e s ≡ some t) × Entered e s t
unfolding process_exception
process_exception-Entered SimException.env_call_umode s h = (_, refl, env_call-Entered _ s)
process_exception-Entered SimException.env_call_mmode s h = (_, refl, env_call-Entered _ s)
process_exception-Entered SimException.instruction_address_misaligned s h =
    (_, refl, misaligned_fetch-Entered _ s)
process_exception-Entered SimException.illegal_instruction_unknown_instr s h =
    (_, refl, illegal-Entered _ s)
process_exception-Entered SimException.illegal_instruction_unimpl_instr s h =
    (_, refl, illegal-Entered _ s)
process_exception-Entered SimException.illegal_instruction_privileged_instr s h =
    (_, refl, illegal-Entered _ s)
process_exception-Entered SimException.illegal_instruction_unknown_csr s h =
    (_, refl, illegal-Entered _ s)
process_exception-Entered SimException.illegal_instruction_privileged_csr s h =
    (_, refl, illegal-Entered _ s)
process_exception-Entered _ s h = cc

return-Entered :
    (e : SimException) (s t : RiscvState)
    → Entered e s t
    → (privilege s ≡ 0) ⊎ (privilege s ≡ 3)
    → (privilege s ≡ 3) ⊎ (mpp s.mstatus_reg < 2)
    → bit_and s.misa 4 ≡ 4
    → let r = return_from_trap t in
      (r.pc ≡ s.pc)
      × (privilege r ≡ privilege s)
      × (mie_bit r.mstatus_reg ≡ mie_bit s.mstatus_reg)
      × (r.x ≡ s.x)
unfolding return_from_trap set_pc compressed_extension_enabled current_privilege_level
return-Entered e s t h level clear c =
    let fields = pop_fields t in
    let frame = pop-SameOutside t in
    (
      ground (arith, frame.same_misa, frame.same_mepc, h.same_extensions, h.return_address),
      ground (arith, fields.0, h.stacked_level),
      fields.1 ∙ h.stacked,
      frame.same_x ∙ h.same_registers,
    )

-- A trap and then a MRET, with the compressed extension enabled: the core is back at the address of
-- the instruction, at the privilege level, with the registers and the interrupt enable that it
-- had, if it came from machine mode, or from user mode with the upper bit of MPP clear.
pub process_exception_return :
    (e : SimException) (s : RiscvState)
    → is_trap e ≡ true
    → (privilege s ≡ 0) ⊎ (privilege s ≡ 3)
    → (privilege s ≡ 3) ⊎ (mpp s.mstatus_reg < 2)
    → bit_and s.misa 4 ≡ 4
    → (t r : RiscvState) × (process_exception e s ≡ some t)
      × (process_exception SimException.process_mret t ≡ some r)
      × (r.pc ≡ s.pc)
      × (privilege r ≡ privilege s)
      × (mie_bit r.mstatus_reg ≡ mie_bit s.mstatus_reg)
      × (r.x ≡ s.x)
process_exception_return e s trap level clear c =
    let (t, taken, entered) = process_exception-Entered e s trap in
    let (pc, mode, enable, x) = return-Entered e s t entered level clear c in
    (t, return_from_trap t, taken, unfold process_exception in refl, pc, mode, enable, x)
