-- ===== src/Instruction/Step/Compressed.antt =====
-- The Step methods of the compressed instructions (src/rv32i_instrs.C).
use dimebox.Common.{
  ◌||◌, ◌+◌, ◌*◌, bit_and, bit_or, bit_xor, ◌<<<◌, ◌>>>◌, ◌==◌, ◌!=◌, u32, u64, sub32,
  if◌then◌else◌,
}
use dimebox.Exceptions.{SimException}
use dimebox.Action.{Action, ◌>>=◌, ◌>>◌, pure, throw, member, when, undefined_behaviour}
use dimebox.Instruction.Mnemonic.{Mnemonic}
use dimebox.Instruction.Fields.{Fields}
use dimebox.Instruction.Machine.{
  MemoryPort, Machine, sign_extend, x_reg, set_x, set_sp, pc, branch_to, memory_read, memory_write,
}
use dimebox.Instruction.Step.Operands.{rs1, rs2}
use dimebox.Instruction.Arith.{shift_arithmetic}

module _ {M : Type 0} (p : MemoryPort M) (f : Fields) where
  unfoldable pub step_compressed : Mnemonic → Action (Machine M) (Unit {0})
  unfolding x_reg set_x set_sp pc branch_to memory_read memory_write rs1 rs2
  step_compressed Mnemonic.c_lwsp = do
    rd ← member f.rd
    sp ← x_reg 2
    imm ← member f.imm
    v ← memory_read p (u32 (sp + imm * 4)) 4
    set_x rd v
  step_compressed Mnemonic.c_swsp = do
    sp ← x_reg 2
    imm ← member f.imm
    b ← rs2 f
    memory_write (u32 (sp + imm * 4)) 4 b
  step_compressed Mnemonic.c_lw = do
    rd ← member f.rd
    a ← rs1 f
    imm ← member f.imm
    v ← memory_read p (u32 (a + imm * 4)) 4
    set_x rd v
  step_compressed Mnemonic.c_sw = do
    a ← rs1 f
    imm ← member f.imm
    b ← rs2 f
    memory_write (u32 (a + imm * 4)) 4 b
  step_compressed Mnemonic.c_j = do
    here ← pc
    imm ← member f.imm
    branch_to (u64 (here + sign_extend imm 11)) 2
  step_compressed Mnemonic.c_jal = do
    here ← pc
    imm ← member f.imm
    branch_to (u64 (here + sign_extend imm 11)) 2
    rd ← member f.rd
    set_x rd (here + 2)
  step_compressed Mnemonic.c_jr = do a ← rs1 f; branch_to a 2
  step_compressed Mnemonic.c_jalr = do
    a ← rs1 f
    branch_to a 2
    rd ← member f.rd
    here ← pc
    set_x rd (here + 2)
  step_compressed Mnemonic.c_beqz = do
    here ← pc
    a ← rs1 f
    imm ← member f.imm
    branch_to (u64 (here + (if a == 0 then sign_extend imm 8 else 2))) 2
  step_compressed Mnemonic.c_bnez = do
    here ← pc
    a ← rs1 f
    imm ← member f.imm
    branch_to (u64 (here + (if a != 0 then sign_extend imm 8 else 2))) 2
  step_compressed Mnemonic.c_li = do
    rd ← member f.rd
    when (rd == 0) (throw SimException.illegal_instruction_unimpl_instr)
    imm ← member f.imm
    set_x rd (sign_extend imm 6)
  step_compressed Mnemonic.c_lui = do
    rd ← member f.rd
    when ((rd == 0) || (rd == 2)) (throw SimException.illegal_instruction_unimpl_instr)
    imm ← member f.imm
    set_x rd (sign_extend (u32 (imm <<< 12)) 17)
  step_compressed Mnemonic.c_addi = do
    imm ← member f.imm
    when (imm == 0) (throw SimException.illegal_instruction_unimpl_instr)
    rd ← member f.rd
    a ← rs1 f
    set_x rd (a + sign_extend imm 6)
  step_compressed Mnemonic.c_addi16sp = do
    imm ← member f.imm
    when (imm == 0) (throw SimException.illegal_instruction_unimpl_instr)
    sp ← x_reg 2
    set_sp (u64 (sp + sign_extend imm 6) <<< 4)
  step_compressed Mnemonic.c_addi4spn = do
    imm ← member f.imm
    when (imm == 0) (throw SimException.illegal_instruction_unimpl_instr)
    rd ← member f.rd
    sp ← x_reg 2
    set_x rd (u32 (sp + imm) <<< 4)
  step_compressed Mnemonic.c_slli = do
    imm ← member f.imm
    when (bit_and imm 0x20 != 0) (throw SimException.illegal_instruction_unimpl_instr)
    rd ← member f.rd
    a ← rs1 f
    set_x rd (a <<< bit_and imm 0x1f)
  step_compressed Mnemonic.c_srli = do
    imm ← member f.imm
    when (bit_and imm 0x20 != 0) (throw SimException.illegal_instruction_unimpl_instr)
    rd ← member f.rd
    a ← rs1 f
    set_x rd (a >>> bit_and imm 0x1f)
  step_compressed Mnemonic.c_srai = do
    imm ← member f.imm
    when (bit_and imm 0x20 != 0) (throw SimException.illegal_instruction_unimpl_instr)
    rd ← member f.rd
    a ← rs1 f
    set_x rd (shift_arithmetic a (bit_and imm 0x1f))
  step_compressed Mnemonic.c_andi = do
    rd ← member f.rd
    d ← x_reg rd
    imm ← member f.imm
    set_x rd (bit_and d (u32 (sign_extend imm 6)))
  step_compressed Mnemonic.c_mv = do rd ← member f.rd; b ← rs2 f; set_x rd b
  step_compressed Mnemonic.c_add = do rd ← member f.rd; d ← x_reg rd; b ← rs2 f; set_x rd (d + b)
  step_compressed Mnemonic.c_and = do
    rd ← member f.rd
    d ← x_reg rd
    b ← rs2 f
    set_x rd (bit_and d b)
  step_compressed Mnemonic.c_or = do
    rd ← member f.rd
    d ← x_reg rd
    b ← rs2 f
    set_x rd (bit_or d b)
  step_compressed Mnemonic.c_xor = do
    rd ← member f.rd
    d ← x_reg rd
    b ← rs2 f
    set_x rd (bit_xor d b)
  step_compressed Mnemonic.c_sub = do
    rd ← member f.rd
    d ← x_reg rd
    b ← rs2 f
    set_x rd (sub32 d b)
  step_compressed Mnemonic.c_nop = pure tt
  step_compressed Mnemonic.c_ebreak = pure tt
  step_compressed i = undefined_behaviour
