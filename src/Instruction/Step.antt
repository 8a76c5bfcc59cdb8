-- ===== src/Instruction/Step.antt =====
-- The Step methods of src/rv32i_instrs.C. Each group of classes is a function, and `step` makes the
-- call through the virtual method.
pub mod Operands
pub mod Base
pub mod System
pub mod Compressed
use dimebox.Action.{Action}
use dimebox.Instruction.Mnemonic.{Mnemonic}
use dimebox.Instruction.Fields.{Fields}
use dimebox.Instruction.Machine.{MemoryPort, Machine}
use Base.{step_integer, step_memory}
use System.{step_system}
use Compressed.{step_compressed}

module _ {M : Type 0} (p : MemoryPort M) (f : Fields) where
  unfoldable pub step : Mnemonic → Action (Machine M) (Unit {0})
  step Mnemonic.addi = step_integer f Mnemonic.addi
  step Mnemonic.slti = step_integer f Mnemonic.slti
  step Mnemonic.sltiu = step_integer f Mnemonic.sltiu
  step Mnemonic.andi = step_integer f Mnemonic.andi
  step Mnemonic.ori = step_integer f Mnemonic.ori
  step Mnemonic.xori = step_integer f Mnemonic.xori
  step Mnemonic.slli = step_integer f Mnemonic.slli
  step Mnemonic.srli = step_integer f Mnemonic.srli
  step Mnemonic.srai = step_integer f Mnemonic.srai
  step Mnemonic.lui = step_integer f Mnemonic.lui
  step Mnemonic.auipc = step_integer f Mnemonic.auipc
  step Mnemonic.add = step_integer f Mnemonic.add
  step Mnemonic.slt = step_integer f Mnemonic.slt
  step Mnemonic.sltu = step_integer f Mnemonic.sltu
  step Mnemonic.and = step_integer f Mnemonic.and
  step Mnemonic.or = step_integer f Mnemonic.or
  step Mnemonic.xor = step_integer f Mnemonic.xor
  step Mnemonic.sub = step_integer f Mnemonic.sub
  step Mnemonic.mul = step_integer f Mnemonic.mul
  step Mnemonic.mulhu = step_integer f Mnemonic.mulhu
  step Mnemonic.mulh = step_integer f Mnemonic.mulh
  step Mnemonic.mulhsu = step_integer f Mnemonic.mulhsu
  step Mnemonic.div = step_integer f Mnemonic.div
  step Mnemonic.divu = step_integer f Mnemonic.divu
  step Mnemonic.rem = step_integer f Mnemonic.rem
  step Mnemonic.sll = step_integer f Mnemonic.sll
  step Mnemonic.srl = step_integer f Mnemonic.srl
  step Mnemonic.sra = step_integer f Mnemonic.sra
  step Mnemonic.remu = step_integer f Mnemonic.remu
  step Mnemonic.jal = step_integer f Mnemonic.jal
  step Mnemonic.jalr = step_integer f Mnemonic.jalr
  step Mnemonic.beq = step_integer f Mnemonic.beq
  step Mnemonic.bne = step_integer f Mnemonic.bne
  step Mnemonic.blt = step_integer f Mnemonic.blt
  step Mnemonic.bltu = step_integer f Mnemonic.bltu
  step Mnemonic.bge = step_integer f Mnemonic.bge
  step Mnemonic.bgeu = step_integer f Mnemonic.bgeu
  step Mnemonic.lb = step_memory p f Mnemonic.lb
  step Mnemonic.lh = step_memory p f Mnemonic.lh
  step Mnemonic.lw = step_memory p f Mnemonic.lw
  step Mnemonic.lbu = step_memory p f Mnemonic.lbu
  step Mnemonic.lhu = step_memory p f Mnemonic.lhu
  step Mnemonic.sb = step_memory p f Mnemonic.sb
  step Mnemonic.sh = step_memory p f Mnemonic.sh
  step Mnemonic.sw = step_memory p f Mnemonic.sw
  step Mnemonic.fence = step_system f Mnemonic.fence
  step Mnemonic.fence_i = step_system f Mnemonic.fence_i
  step Mnemonic.sfence = step_system f Mnemonic.sfence
  step Mnemonic.ebreak = step_system f Mnemonic.ebreak
  step Mnemonic.csrrw = step_system f Mnemonic.csrrw
  step Mnemonic.csrrs = step_system f Mnemonic.csrrs
  step Mnemonic.csrrc = step_system f Mnemonic.csrrc
  step Mnemonic.csrrwi = step_system f Mnemonic.csrrwi
  step Mnemonic.csrrsi = step_system f Mnemonic.csrrsi
  step Mnemonic.csrrci = step_system f Mnemonic.csrrci
  step Mnemonic.ecall = step_system f Mnemonic.ecall
  step Mnemonic.uret = step_system f Mnemonic.uret
  step Mnemonic.sret = step_system f Mnemonic.sret
  step Mnemonic.hret = step_system f Mnemonic.hret
  step Mnemonic.mret = step_system f Mnemonic.mret
  step Mnemonic.wfi = step_system f Mnemonic.wfi
  step Mnemonic.unknown = step_system f Mnemonic.unknown
  step Mnemonic.c_lwsp = step_compressed p f Mnemonic.c_lwsp
  step Mnemonic.c_swsp = step_compressed p f Mnemonic.c_swsp
  step Mnemonic.c_lw = step_compressed p f Mnemonic.c_lw
  step Mnemonic.c_sw = step_compressed p f Mnemonic.c_sw
  step Mnemonic.c_j = step_compressed p f Mnemonic.c_j
  step Mnemonic.c_jal = step_compressed p f Mnemonic.c_jal
  step Mnemonic.c_jr = step_compressed p f Mnemonic.c_jr
  step Mnemonic.c_jalr = step_compressed p f Mnemonic.c_jalr
  step Mnemonic.c_beqz = step_compressed p f Mnemonic.c_beqz
  step Mnemonic.c_bnez = step_compressed p f Mnemonic.c_bnez
  step Mnemonic.c_li = step_compressed p f Mnemonic.c_li
  step Mnemonic.c_lui = step_compressed p f Mnemonic.c_lui
  step Mnemonic.c_addi = step_compressed p f Mnemonic.c_addi
  step Mnemonic.c_addi16sp = step_compressed p f Mnemonic.c_addi16sp
  step Mnemonic.c_addi4spn = step_compressed p f Mnemonic.c_addi4spn
  step Mnemonic.c_slli = step_compressed p f Mnemonic.c_slli
  step Mnemonic.c_srli = step_compressed p f Mnemonic.c_srli
  step Mnemonic.c_srai = step_compressed p f Mnemonic.c_srai
  step Mnemonic.c_andi = step_compressed p f Mnemonic.c_andi
  step Mnemonic.c_mv = step_compressed p f Mnemonic.c_mv
  step Mnemonic.c_add = step_compressed p f Mnemonic.c_add
  step Mnemonic.c_and = step_compressed p f Mnemonic.c_and
  step Mnemonic.c_or = step_compressed p f Mnemonic.c_or
  step Mnemonic.c_xor = step_compressed p f Mnemonic.c_xor
  step Mnemonic.c_sub = step_compressed p f Mnemonic.c_sub
  step Mnemonic.c_nop = step_compressed p f Mnemonic.c_nop
  step Mnemonic.c_ebreak = step_compressed p f Mnemonic.c_ebreak
