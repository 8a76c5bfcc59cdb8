-- ===== src/Instruction/Mnemonic.antt =====
-- The instruction classes and the encoding type that each derives from. The classes are generated
-- by utils/make_rv32i_iclasses.pl from its lists, which `format` transcribes.

pub data Mnemonic : Type 0 where
  lui auipc jal jalr beq bne blt bge bltu bgeu lb lh lw lbu lhu sb sh sw : Mnemonic
  addi slti sltiu xori ori andi slli srli srai : Mnemonic
  add sll slt sltu xor srl or and sub sra : Mnemonic
  mul mulh mulhsu mulhu div divu rem remu : Mnemonic
  ecall ebreak uret sret hret mret wfi sfence : Mnemonic
  csrrw csrrs csrrc csrrwi csrrsi csrrci fence fence_i : Mnemonic
  c_addi4spn c_lw c_sw c_addi c_jal c_li c_addi16sp c_lui c_andi c_sub c_xor c_or c_and : Mnemonic
  c_j c_beqz c_bnez c_nop c_lwsp c_swsp c_jr c_jalr c_slli c_srli c_srai c_mv c_add : Mnemonic
  c_ebreak unknown : Mnemonic

-- `bare` is the UnknownInstruction, whose Decode does nothing.
pub data Format : Type 0 where
  r_type i_type s_type b_type u_type j_type : Format
  cr_type ci_type css_type ciw_type cl_type cs_type cb_type cj_type bare : Format

unfoldable pub format : Mnemonic → Format
format Mnemonic.lui = u_type
format Mnemonic.fence = u_type
format Mnemonic.fence_i = u_type
format Mnemonic.ecall = u_type
format Mnemonic.ebreak = u_type
format Mnemonic.auipc = u_type
format Mnemonic.jal = j_type
format Mnemonic.addi = i_type
format Mnemonic.slti = i_type
format Mnemonic.xori = i_type
format Mnemonic.ori = i_type
format Mnemonic.andi = i_type
format Mnemonic.csrrw = i_type
format Mnemonic.csrrc = i_type
format Mnemonic.csrrs = i_type
format Mnemonic.csrrwi = i_type
format Mnemonic.csrrsi = i_type
format Mnemonic.csrrci = i_type
format Mnemonic.sltiu = i_type
format Mnemonic.slli = i_type
format Mnemonic.srli = i_type
format Mnemonic.srai = i_type
format Mnemonic.jalr = i_type
format Mnemonic.lb = i_type
format Mnemonic.lh = i_type
format Mnemonic.lw = i_type
format Mnemonic.lbu = i_type
format Mnemonic.lhu = i_type
format Mnemonic.uret = i_type
format Mnemonic.sret = i_type
format Mnemonic.hret = i_type
format Mnemonic.mret = i_type
format Mnemonic.wfi = i_type
format Mnemonic.sfence = i_type
format Mnemonic.sb = s_type
format Mnemonic.sh = s_type
format Mnemonic.sw = s_type
format Mnemonic.beq = b_type
format Mnemonic.bne = b_type
format Mnemonic.blt = b_type
format Mnemonic.bge = b_type
format Mnemonic.bltu = b_type
format Mnemonic.bgeu = b_type
format Mnemonic.add = r_type
format Mnemonic.slt = r_type
format Mnemonic.sltu = r_type
format Mnemonic.and = r_type
format Mnemonic.or = r_type
format Mnemonic.xor = r_type
format Mnemonic.sll = r_type
format Mnemonic.srl = r_type
format Mnemonic.sub = r_type
format Mnemonic.sra = r_type
format Mnemonic.mul = r_type
format Mnemonic.mulh = r_type
format Mnemonic.mulhsu = r_type
format Mnemonic.mulhu = r_type
format Mnemonic.div = r_type
format Mnemonic.divu = r_type
format Mnemonic.rem = r_type
format Mnemonic.remu = r_type
format Mnemonic.c_mv = cr_type
format Mnemonic.c_add = cr_type
format Mnemonic.c_ebreak = cr_type
format Mnemonic.c_jr = cr_type
format Mnemonic.c_jalr = cr_type
format Mnemonic.c_lwsp = ci_type
format Mnemonic.c_li = ci_type
format Mnemonic.c_lui = ci_type
format Mnemonic.c_addi = ci_type
format Mnemonic.c_addi16sp = ci_type
format Mnemonic.c_slli = ci_type
format Mnemonic.c_nop = ci_type
format Mnemonic.c_swsp = css_type
format Mnemonic.c_addi4spn = ciw_type
format Mnemonic.c_lw = cl_type
format Mnemonic.c_sw = cs_type
format Mnemonic.c_and = cs_type
format Mnemonic.c_or = cs_type
format Mnemonic.c_xor = cs_type
format Mnemonic.c_sub = cs_type
format Mnemonic.c_beqz = cb_type
format Mnemonic.c_bnez = cb_type
format Mnemonic.c_srli = cb_type
format Mnemonic.c_srai = cb_type
format Mnemonic.c_andi = cb_type
format Mnemonic.c_j = cj_type
format Mnemonic.c_jal = cj_type
format Mnemonic.unknown = bare
