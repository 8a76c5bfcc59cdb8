-- ===== src/Instruction/Factory.antt =====
-- RiscvInstructionFactory (src/riscv_instruction.C): the class of an encoding. The switches are
-- written as chains of tests, and `unknown` is the UnknownInstruction.
use dimebox.Common.{ℕ, not, ◌&&◌, bit_and, bit_or, ◌<<<◌, ◌>>>◌, ◌==◌, if◌then◌else◌}
use dimebox.Instruction.Mnemonic.{Mnemonic}
use dimebox.State.{RiscvState, compressed_extension_enabled}

unfoldable pub branch_class : ℕ → Mnemonic
branch_class funct3 =
    if funct3 == 0
    then Mnemonic.beq
    else if funct3 == 1
    then Mnemonic.bne
    else if funct3 == 4
    then Mnemonic.blt
    else if funct3 == 5
    then Mnemonic.bge
    else if funct3 == 6
    then Mnemonic.bltu
    else if funct3 == 7
    then Mnemonic.bgeu
    else Mnemonic.unknown

unfoldable pub load_class : ℕ → Mnemonic
load_class funct3 =
    if funct3 == 0
    then Mnemonic.lb
    else if funct3 == 1
    then Mnemonic.lh
    else if funct3 == 2
    then Mnemonic.lw
    else if funct3 == 4
    then Mnemonic.lbu
    else if funct3 == 5
    then Mnemonic.lhu
    else Mnemonic.unknown

unfoldable pub store_class : ℕ → Mnemonic
store_class funct3 =
    if funct3 == 0
    then Mnemonic.sb
    else if funct3 == 1
    then Mnemonic.sh
    else if funct3 == 2
    then Mnemonic.sw
    else Mnemonic.unknown

unfoldable pub immediate_class : ℕ → ℕ → Mnemonic
immediate_class funct3 funct7 =
    if funct3 == 0
    then Mnemonic.addi
    else if funct3 == 2
    then Mnemonic.slti
    else if funct3 == 3
    then Mnemonic.sltiu
    else if funct3 == 4
    then Mnemonic.xori
    else if funct3 == 6
    then Mnemonic.ori
    else if funct3 == 7
    then Mnemonic.andi
    else if funct3 == 1
    then (if funct7 == 0 then Mnemonic.slli else Mnemonic.unknown)
    else if funct3 == 5
    then (if funct7 == 0
        then Mnemonic.srli
        else if funct7 == 0x20
        then Mnemonic.srai
        else Mnemonic.unknown)
    else Mnemonic.unknown

unfoldable pub register_class : ℕ → ℕ → Mnemonic
register_class funct3 funct7 =
    if funct7 == 0
    then (if funct3 == 0
        then Mnemonic.add
        else if funct3 == 1
        then Mnemonic.sll
        else if funct3 == 2
        then Mnemonic.slt
        else if funct3 == 3
        then Mnemonic.sltu
        else if funct3 == 4
        then Mnemonic.xor
        else if funct3 == 5
        then Mnemonic.srl
        else if funct3 == 6
        then Mnemonic.or
        else if funct3 == 7
        then Mnemonic.and
        else Mnemonic.unknown)
    else if funct7 == 1
    then (if funct3 == 0
        then Mnemonic.mul
        else if funct3 == 1
        then Mnemonic.mulh
        else if funct3 == 2
        then Mnemonic.mulhsu
        else if funct3 == 3
        then Mnemonic.mulhu
        else if funct3 == 4
        then Mnemonic.div
        else if funct3 == 5
        then Mnemonic.divu
        else if funct3 == 6
        then Mnemonic.rem
        else if funct3 == 7
        then Mnemonic.remu
        else Mnemonic.unknown)
    else if funct7 == 0x20
    then (if funct3 == 0
        then Mnemonic.sub
        else if funct3 == 5
        then Mnemonic.sra
        else Mnemonic.unknown)
    else Mnemonic.unknown

unfoldable pub system_class : ℕ → ℕ → ℕ → ℕ → Mnemonic
system_class enc funct3 rs1 imm =
    if enc == 0x73
    then Mnemonic.ecall
    else if enc == 0x100073
    then Mnemonic.ebreak
    else if (funct3 == 0) && (rs1 == 0)
    then (if imm == 0x002
        then Mnemonic.uret
        else if imm == 0x102
        then Mnemonic.sret
        else if imm == 0x202
        then Mnemonic.hret
        else if imm == 0x302
        then Mnemonic.mret
        else if imm == 0x105
        then Mnemonic.wfi
        else if imm == 0x104
        then Mnemonic.sfence
        else Mnemonic.unknown)
    else if funct3 == 1
    then Mnemonic.csrrw
    else if funct3 == 2
    then Mnemonic.csrrs
    else if funct3 == 3
    then Mnemonic.csrrc
    else if funct3 == 5
    then Mnemonic.csrrwi
    else if funct3 == 6
    then Mnemonic.csrrsi
    else if funct3 == 7
    then Mnemonic.csrrci
    else Mnemonic.unknown

-- NewInstruction of an encoding of four bytes.
unfoldable pub new_instruction : ℕ → Mnemonic
unfolding branch_class load_class store_class immediate_class register_class system_class
new_instruction enc =
    let opcode = bit_and enc 0x7f in
    let funct3 = bit_and (enc >>> 12) 0x7 in
    let funct7 = bit_and (enc >>> 25) 0x7f in
    let rs1 = bit_and (enc >>> 15) 0x1f in
    let imm = bit_and (enc >>> 20) 0xfff in
    if opcode == 0x37
    then Mnemonic.lui
    else if opcode == 0x17
    then Mnemonic.auipc
    else if opcode == 0x6f
    then Mnemonic.jal
    else if opcode == 0x67
    then (if funct3 == 0 then Mnemonic.jalr else Mnemonic.unknown)
    else if opcode == 0x63
    then branch_class funct3
    else if opcode == 0x3
    then load_class funct3
    else if opcode == 0x23
    then store_class funct3
    else if opcode == 0x13
    then immediate_class funct3 funct7
    else if opcode == 0x33
    then register_class funct3 funct7
    else if opcode == 0x73
    then system_class enc funct3 rs1 imm
    else if opcode == 0xf
    then (if bit_and enc 0xffffffff == 0x100f
        then Mnemonic.fence_i
        else if bit_and enc 0xf00fffff == 0xf
        then Mnemonic.fence
        else Mnemonic.unknown)
    else Mnemonic.unknown

unfoldable pub arithmetic_class16 : ℕ → Mnemonic
arithmetic_class16 key =
    if key == 0x20
    then Mnemonic.c_andi
    else if key == 0x21
    then Mnemonic.c_andi
    else if key == 0x22
    then Mnemonic.c_andi
    else if key == 0x23
    then Mnemonic.c_andi
    else if key == 0x30
    then Mnemonic.c_sub
    else if key == 0x31
    then Mnemonic.c_xor
    else if key == 0x32
    then Mnemonic.c_or
    else if key == 0x33
    then Mnemonic.c_and
    else Mnemonic.unknown

unfoldable pub class16 : ℕ → ℕ → ℕ → Mnemonic
unfolding arithmetic_class16
class16 enc key rd =
    if key == 0x00
    then Mnemonic.c_addi4spn
    else if key == 0x20
    then Mnemonic.c_lw
    else if key == 0x60
    then Mnemonic.c_sw
    else if key == 0x01
    then Mnemonic.c_addi
    else if key == 0x11
    then Mnemonic.c_jal
    else if key == 0x21
    then Mnemonic.c_li
    else if key == 0x31
    then (if rd == 2
        then Mnemonic.c_addi16sp
        else if rd == 0
        then Mnemonic.unknown
        else Mnemonic.c_lui)
    else if key == 0x41
    then arithmetic_class16 (bit_or (bit_and (enc >>> 10) 0x7 <<< 4) (bit_and (enc >>> 5) 0x3))
    else if key == 0x51
    then Mnemonic.c_j
    else if key == 0x61
    then Mnemonic.c_beqz
    else if key == 0x71
    then Mnemonic.c_lui
    else Mnemonic.unknown

-- NewInstruction16 of an encoding of two bytes.
unfoldable pub new_instruction16 : RiscvState → ℕ → Mnemonic
unfolding class16
new_instruction16 s enc =
    if not (compressed_extension_enabled s)
    then Mnemonic.unknown
    else if enc == 0
    then Mnemonic.unknown
    else if enc == 1
    then Mnemonic.c_nop
    else class16 enc (bit_or (bit_and (enc >>> 13) 0x7 <<< 4) (bit_and enc 0x3))
        (bit_and (enc >>> 7) 0x1f)
