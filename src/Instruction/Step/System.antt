-- ===== src/Instruction/Step/System.antt =====
-- The Step methods of the CSR and system instructions (src/rv32i_instrs.C).
use dimebox.Common.{◌+◌, ◌-◌, ◌^◌, bit_and, bit_or, ◌!=◌, u64, sub64, if◌then◌else◌}
use dimebox.Exceptions.{SimException}
use dimebox.Action.{Action, ◌>>=◌, ◌>>◌, pure, throw, gets, member, when, undefined_behaviour}
use dimebox.State.{wfi_enabled}
use dimebox.Instruction.Mnemonic.{Mnemonic}
use dimebox.Instruction.Fields.{Fields}
use dimebox.Instruction.Machine.{Machine, set_x, read_csr_reg, write_csr_reg}
use dimebox.Instruction.Step.Operands.{rs1, user_mode, machine_mode}

module _ {M : Type 0} (f : Fields) where
  unfoldable pub step_system : Mnemonic → Action (Machine M) (Unit {0})
  unfolding set_x read_csr_reg write_csr_reg rs1 user_mode machine_mode
  step_system Mnemonic.fence = pure tt
  step_system Mnemonic.fence_i = pure tt
  step_system Mnemonic.sfence = pure tt
  step_system Mnemonic.ebreak = pure tt
  step_system Mnemonic.csrrw = do
    tmp ← rs1 f
    rd ← member f.rd
    imm ← member f.imm
    old ← read_csr_reg imm
    set_x rd old
    write_csr_reg imm tmp
  step_system Mnemonic.csrrs = do
    tmp ← rs1 f
    rd ← member f.rd
    imm ← member f.imm
    old ← read_csr_reg imm
    set_x rd old
    source ← member f.rs1
    when (source != 0) (do now ← read_csr_reg imm; write_csr_reg imm (bit_or now tmp))
  step_system Mnemonic.csrrc = do
    tmp ← rs1 f
    rd ← member f.rd
    imm ← member f.imm
    old ← read_csr_reg imm
    set_x rd old
    source ← member f.rs1
    when (source != 0)
        (do now ← read_csr_reg imm; write_csr_reg imm (bit_and now (2 ^ 32 - 1 - tmp)))
  step_system Mnemonic.csrrwi = do
    rd ← member f.rd
    imm ← member f.imm
    old ← read_csr_reg imm
    set_x rd old
    source ← member f.rs1
    write_csr_reg imm source
  step_system Mnemonic.csrrsi = do
    rd ← member f.rd
    imm ← member f.imm
    old ← read_csr_reg imm
    set_x rd old
    source ← member f.rs1
    when (source != 0) (do now ← read_csr_reg imm; write_csr_reg imm (u64 (now + source)))
  step_system Mnemonic.csrrci = do
    rd ← member f.rd
    imm ← member f.imm
    old ← read_csr_reg imm
    set_x rd old
    source ← member f.rs1
    when (source != 0) (do now ← read_csr_reg imm; write_csr_reg imm (sub64 now source))
  step_system Mnemonic.ecall = do
    user ← user_mode
    if user then throw SimException.env_call_umode else throw SimException.env_call_mmode
  step_system Mnemonic.uret = throw SimException.illegal_instruction_unimpl_instr
  step_system Mnemonic.sret = throw SimException.illegal_instruction_unimpl_instr
  step_system Mnemonic.hret = throw SimException.illegal_instruction_unimpl_instr
  step_system Mnemonic.mret = do
    machine ← machine_mode
    if machine
        then throw SimException.process_mret
        else throw SimException.illegal_instruction_privileged_instr
  step_system Mnemonic.wfi = do
    user ← user_mode
    enabled ← gets (λ m. wfi_enabled m.state)
    if user
        then throw SimException.illegal_instruction_privileged_instr
        else if enabled
        then throw SimException.process_wfi
        else throw SimException.illegal_instruction_unimpl_instr
  step_system Mnemonic.unknown = throw SimException.illegal_instruction_unknown_instr
  step_system i = undefined_behaviour
