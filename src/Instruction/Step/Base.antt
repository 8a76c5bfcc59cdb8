-- ===== src/Instruction/Step/Base.antt =====
-- The Step methods of RV32I and RV32M (src/rv32i_instrs.C).
use dimebox.Common.{
  not, ◌+◌, ◌*◌, bit_and, bit_or, bit_xor, ◌<<<◌, ◌>>>◌, ◌==◌, ◌!=◌, ltb, leb, slt32, u32, u64,
  sub32, if◌then◌else◌,
}
use dimebox.Action.{Action, ◌>>=◌, ◌>>◌, lift, member, undefined_behaviour}
use dimebox.Instruction.Mnemonic.{Mnemonic}
use dimebox.Instruction.Fields.{Fields}
use dimebox.Instruction.Machine.{
  MemoryPort, Machine, sign_extend, x_reg, set_x, pc, branch_to, memory_read, memory_write,
}
use dimebox.Instruction.Step.Operands.{rs1, rs2}
use dimebox.Instruction.Arith.{
  div_value, divu_value, rem_value, remu_value, mulhu_value, mulh_value, mulhsu_value,
  shift_arithmetic,
}

module _ {M : Type 0} (f : Fields) where
  unfoldable pub step_integer : Mnemonic → Action (Machine M) (Unit {0})
  unfolding x_reg set_x pc branch_to rs1 rs2
  step_integer Mnemonic.addi = do
    rd ← member f.rd
    a ← rs1 f
    imm ← member f.imm
    set_x rd (a + sign_extend imm 12)
  step_integer Mnemonic.slti = do
    rd ← member f.rd
    a ← rs1 f
    imm ← member f.imm
    set_x rd (if slt32 a (u32 (sign_extend imm 12)) then 1 else 0)
  step_integer Mnemonic.sltiu = do
    rd ← member f.rd
    a ← rs1 f
    imm ← member f.imm
    set_x rd (if ltb a (u32 (sign_extend imm 12)) then 1 else 0)
  step_integer Mnemonic.andi = do
    rd ← member f.rd
    a ← rs1 f
    imm ← member f.imm
    set_x rd (bit_and a (u32 (sign_extend imm 12)))
  step_integer Mnemonic.ori = do
    rd ← member f.rd
    a ← rs1 f
    imm ← member f.imm
    set_x rd (bit_or a (u32 (sign_extend imm 12)))
  step_integer Mnemonic.xori = do
    rd ← member f.rd
    a ← rs1 f
    imm ← member f.imm
    set_x rd (bit_xor a (u32 (sign_extend imm 12)))
  step_integer Mnemonic.slli = do
    rd ← member f.rd
    a ← rs1 f
    imm ← member f.imm
    set_x rd (a <<< bit_and imm 0x1f)
  step_integer Mnemonic.srli = do
    rd ← member f.rd
    a ← rs1 f
    imm ← member f.imm
    set_x rd (a >>> bit_and imm 0x1f)
  step_integer Mnemonic.srai = do
    rd ← member f.rd
    a ← rs1 f
    imm ← member f.imm
    set_x rd (shift_arithmetic a (bit_and imm 0x1f))
  step_integer Mnemonic.lui = do rd ← member f.rd; imm ← member f.imm; set_x rd imm
  step_integer Mnemonic.auipc = do
    rd ← member f.rd
    here ← pc
    imm ← member f.imm
    set_x rd (here + imm)
  step_integer Mnemonic.add = do rd ← member f.rd; a ← rs1 f; b ← rs2 f; set_x rd (a + b)
  step_integer Mnemonic.slt = do
    rd ← member f.rd
    a ← rs1 f
    b ← rs2 f
    set_x rd (if slt32 a b then 1 else 0)
  step_integer Mnemonic.sltu = do
    rd ← member f.rd
    a ← rs1 f
    b ← rs2 f
    set_x rd (if ltb a b then 1 else 0)
  step_integer Mnemonic.and = do rd ← member f.rd; a ← rs1 f; b ← rs2 f; set_x rd (bit_and a b)
  step_integer Mnemonic.or = do rd ← member f.rd; a ← rs1 f; b ← rs2 f; set_x rd (bit_or a b)
  step_integer Mnemonic.xor = do rd ← member f.rd; a ← rs1 f; b ← rs2 f; set_x rd (bit_xor a b)
  step_integer Mnemonic.sub = do rd ← member f.rd; a ← rs1 f; b ← rs2 f; set_x rd (sub32 a b)
  step_integer Mnemonic.mul = do rd ← member f.rd; a ← rs1 f; b ← rs2 f; set_x rd (a * b)
  step_integer Mnemonic.mulhu = do
    rd ← member f.rd
    a ← rs1 f
    b ← rs2 f
    set_x rd (mulhu_value a b)
  step_integer Mnemonic.mulh = do rd ← member f.rd; a ← rs1 f; b ← rs2 f; set_x rd (mulh_value a b)
  step_integer Mnemonic.mulhsu = do
    rd ← member f.rd
    a ← rs1 f
    b ← rs2 f
    set_x rd (mulhsu_value a b)
  step_integer Mnemonic.div = do
    rd ← member f.rd
    a ← rs1 f
    b ← rs2 f
    value ← lift (div_value a b)
    set_x rd value
  step_integer Mnemonic.divu = do rd ← member f.rd; a ← rs1 f; b ← rs2 f; set_x rd (divu_value a b)
  step_integer Mnemonic.rem = do
    rd ← member f.rd
    a ← rs1 f
    b ← rs2 f
    value ← lift (rem_value a b)
    set_x rd value
  step_integer Mnemonic.sll = do
    rd ← member f.rd
    a ← rs1 f
    b ← rs2 f
    if ltb b 32 then set_x rd (a <<< b) else undefined_behaviour
  step_integer Mnemonic.srl = do
    rd ← member f.rd
    a ← rs1 f
    b ← rs2 f
    if ltb b 32 then set_x rd (a >>> b) else undefined_behaviour
  step_integer Mnemonic.sra = do
    rd ← member f.rd
    a ← rs1 f
    b ← rs2 f
    if ltb b 32 then set_x rd (shift_arithmetic a b) else undefined_behaviour
  step_integer Mnemonic.remu = do
    rd ← member f.rd
    a ← rs1 f
    b ← rs2 f
    if b == 0 then undefined_behaviour else set_x rd (remu_value a b)
  step_integer Mnemonic.jal = do
    here ← pc
    imm ← member f.imm
    branch_to (u64 (here + sign_extend imm 20)) 4
    rd ← member f.rd
    set_x rd (here + 4)
  step_integer Mnemonic.jalr = do
    a ← rs1 f
    imm ← member f.imm
    branch_to (bit_and (u64 (a + sign_extend imm 12)) 0xfffffffe) 4
    rd ← member f.rd
    here ← pc
    set_x rd (here + 4)
  step_integer Mnemonic.beq = do
    here ← pc
    a ← rs1 f
    b ← rs2 f
    imm ← member f.imm
    branch_to (u64 (here + (if a == b then sign_extend imm 13 else 4))) 4
  step_integer Mnemonic.bne = do
    here ← pc
    a ← rs1 f
    b ← rs2 f
    imm ← member f.imm
    branch_to (u64 (here + (if a != b then sign_extend imm 13 else 4))) 4
  step_integer Mnemonic.blt = do
    here ← pc
    a ← rs1 f
    b ← rs2 f
    imm ← member f.imm
    branch_to (u64 (here + (if slt32 a b then sign_extend imm 13 else 4))) 4
  step_integer Mnemonic.bltu = do
    here ← pc
    a ← rs1 f
    b ← rs2 f
    imm ← member f.imm
    branch_to (u64 (here + (if ltb a b then sign_extend imm 13 else 4))) 4
  step_integer Mnemonic.bge = do
    here ← pc
    a ← rs1 f
    b ← rs2 f
    imm ← member f.imm
    branch_to (u64 (here + (if not (slt32 a b) then sign_extend imm 13 else 4))) 4
  step_integer Mnemonic.bgeu = do
    here ← pc
    a ← rs1 f
    b ← rs2 f
    imm ← member f.imm
    branch_to (u64 (here + (if leb b a then sign_extend imm 13 else 4))) 4
  step_integer i = undefined_behaviour

module _ {M : Type 0} (p : MemoryPort M) (f : Fields) where
  unfoldable pub step_memory : Mnemonic → Action (Machine M) (Unit {0})
  unfolding set_x memory_read memory_write rs1 rs2
  step_memory Mnemonic.lb = do
    rd ← member f.rd
    a ← rs1 f
    imm ← member f.imm
    v ← memory_read p (u64 (a + sign_extend imm 12)) 1
    set_x rd (sign_extend v 8)
  step_memory Mnemonic.lh = do
    rd ← member f.rd
    a ← rs1 f
    imm ← member f.imm
    v ← memory_read p (u64 (a + sign_extend imm 12)) 2
    set_x rd (sign_extend v 16)
  step_memory Mnemonic.lw = do
    rd ← member f.rd
    a ← rs1 f
    imm ← member f.imm
    v ← memory_read p (u64 (a + sign_extend imm 12)) 4
    set_x rd v
  step_memory Mnemonic.lbu = do
    rd ← member f.rd
    a ← rs1 f
    imm ← member f.imm
    v ← memory_read p (u64 (a + sign_extend imm 12)) 1
    set_x rd v
  step_memory Mnemonic.lhu = do
    rd ← member f.rd
    a ← rs1 f
    imm ← member f.imm
    v ← memory_read p (u64 (a + sign_extend imm 12)) 2
    set_x rd v
  step_memory Mnemonic.sb = do
    a ← rs1 f
    imm ← member f.imm
    b ← rs2 f
    memory_write (u64 (a + sign_extend imm 12)) 1 b
  step_memory Mnemonic.sh = do
    a ← rs1 f
    imm ← member f.imm
    b ← rs2 f
    memory_write (u64 (a + sign_extend imm 12)) 2 b
  step_memory Mnemonic.sw = do
    a ← rs1 f
    imm ← member f.imm
    b ← rs2 f
    memory_write (u64 (a + sign_extend imm 12)) 4 b
  step_memory i = undefined_behaviour
