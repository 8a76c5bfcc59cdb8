-- ===== src/Instruction/Fields.antt =====
-- The fields of an encoding: the Decode methods of include/riscv_instruction.h.
use dimebox.Common.{ℕ, ◌+◌, Option, none, some, bit_and, bit_or, ◌<<<◌, ◌>>>◌}
use dimebox.Instruction.Mnemonic.{
  Format, r_type, i_type, s_type, b_type, u_type, j_type, cr_type, ci_type, css_type, ciw_type,
  cl_type, cs_type, cb_type, cj_type, bare,
}

-- The members that Decode sets; `none` is a member that was never set.
pub record Fields : Type 0 where
  pub rs1 : Option ℕ
  pub rs2 : Option ℕ
  pub rd : Option ℕ
  pub imm : Option ℕ
  pub funct3 : Option ℕ
  pub funct4 : Option ℕ
  pub funct7 : Option ℕ
  pub op : Option ℕ

unfoldable pub no_fields : Fields
no_fields = record {
  rs1 = none;
  rs2 = none;
  rd = none;
  imm = none;
  funct3 = none;
  funct4 = none;
  funct7 = none;
  op = none;
}

module _ (enc : ℕ) where
  unfoldable pub field_rs2 : ℕ
  field_rs2 = bit_and (enc >>> 20) 0x1f

  unfoldable pub field_rs1 : ℕ
  field_rs1 = bit_and (enc >>> 15) 0x1f

  unfoldable pub field_rd : ℕ
  field_rd = bit_and (enc >>> 7) 0x1f

  unfoldable pub field_funct3 : ℕ
  field_funct3 = bit_and (enc >>> 12) 0x7

  -- The member keeps six of the seven bits.
  unfoldable pub field_funct7 : ℕ
  field_funct7 = bit_and (enc >>> 25) 0x3f

  unfoldable pub itype_imm : ℕ
  itype_imm = bit_and (enc >>> 20) 0xfff

  unfoldable pub stype_imm : ℕ
  stype_imm = bit_or (bit_and (enc >>> 25) 0x7f <<< 5) (bit_and (enc >>> 7) 0x1f)

  unfoldable pub btype_imm : ℕ
  btype_imm =
      bit_or
        (bit_or (bit_or (bit_and (enc >>> 31) 1 <<< 12) (bit_and (enc >>> 25) 0x3f <<< 5))
          (bit_and (enc >>> 8) 0xf <<< 1))
        (bit_and (enc >>> 7) 1 <<< 11)

  unfoldable pub utype_imm : ℕ
  utype_imm = bit_and enc 0xfffff000

  unfoldable pub jtype_imm : ℕ
  jtype_imm =
      bit_or
        (bit_or (bit_or (bit_and (enc >>> 12) 0xff <<< 12) (bit_and (enc >>> 20) 1 <<< 11))
          (bit_and (enc >>> 25) 0x3f <<< 5))
        (bit_and (enc >>> 21) 0xf <<< 1)

  unfoldable pub cb_offset : ℕ
  cb_offset = bit_or ((bit_and enc 0x1c00 >>> 10) <<< 5) (bit_and enc 0x7c >>> 2)

  unfoldable pub cj_target : ℕ
  cj_target = bit_and enc 0x1ffc >>> 2

  unfoldable pub imm_ci : ℕ
  imm_ci = bit_or ((bit_and enc 0x1000 >>> 12) <<< 5) (bit_and enc 0x7c >>> 2)

  unfoldable pub imm_ciw : ℕ
  imm_ciw = bit_and enc 0x1fe0 >>> 5

  unfoldable pub imm_cl : ℕ
  imm_cl = bit_or (bit_and (enc >>> 10) 0x7 <<< 2) (bit_and (enc >>> 5) 3)

  unfoldable pub imm_css : ℕ
  imm_css = bit_and (enc >>> 7) 0x3f

  unfoldable pub field_op : ℕ
  field_op = bit_and enc 3

  unfoldable pub field_funct4 : ℕ
  field_funct4 = bit_and enc 0xf000 >>> 12

  -- rvc2reg of two bits of the encoding, at either place.
  unfoldable pub reg3_low : ℕ
  reg3_low = bit_and (enc >>> 2) 0x3 + 8

  unfoldable pub reg3_high : ℕ
  reg3_high = bit_and (enc >>> 7) 0x3 + 8

unfoldable pub decode : Format → ℕ → Fields → Fields
decode r_type enc f = record f {
  funct7 = some (field_funct7 enc);
  rs2 = some (field_rs2 enc);
  rs1 = some (field_rs1 enc);
  funct3 = some (field_funct3 enc);
  rd = some (field_rd enc);
}
decode i_type enc f = record f {
  imm = some (itype_imm enc);
  rs1 = some (field_rs1 enc);
  funct3 = some (field_funct3 enc);
  rd = some (field_rd enc);
}
decode s_type enc f = record f {
  imm = some (stype_imm enc);
  rs2 = some (field_rs2 enc);
  rs1 = some (field_rs1 enc);
  funct3 = some (field_funct3 enc);
}
decode b_type enc f = record f {
  imm = some (btype_imm enc);
  rs2 = some (field_rs2 enc);
  rs1 = some (field_rs1 enc);
  funct3 = some (field_funct3 enc);
}
decode u_type enc f = record f { imm = some (utype_imm enc); rd = some (field_rd enc) }
decode j_type enc f = record f { imm = some (jtype_imm enc); rd = some (field_rd enc) }
decode cr_type enc f = record f {
  funct4 = some (field_funct4 enc);
  rd = some (field_rd enc);
  rs1 = some (field_rd enc);
  rs2 = some (field_rs2 enc);
  op = some (field_op enc);
}
decode ci_type enc f = record f {
  funct3 = some (field_funct3 enc);
  imm = some (imm_ci enc);
  rd = some (field_rd enc);
  rs1 = some (field_rd enc);
  op = some (field_op enc);
}
decode css_type enc f = record f {
  funct3 = some (field_funct3 enc);
  imm = some (imm_css enc);
  rs2 = some (field_rs2 enc);
  op = some (field_op enc);
}
decode ciw_type enc f = record f {
  funct3 = some (field_funct3 enc);
  imm = some (imm_ciw enc);
  rd = some (reg3_low enc);
  op = some (field_op enc);
}
decode cl_type enc f = record f {
  funct3 = some (field_funct3 enc);
  imm = some (imm_cl enc);
  rs1 = some (reg3_high enc);
  rd = some (reg3_low enc);
  op = some (field_op enc);
}
decode cs_type enc f = record f {
  funct3 = some (field_funct3 enc);
  imm = some (imm_cl enc);
  rs1 = some (reg3_high enc);
  rs2 = some (reg3_low enc);
  op = some (field_op enc);
}
decode cb_type enc f = record f {
  funct3 = some (field_funct3 enc);
  imm = some (cb_offset enc);
  rs1 = some (reg3_high enc);
  op = some (field_op enc);
}
decode cj_type enc f = record f {
  funct3 = some (field_funct3 enc);
  imm = some (cj_target enc);
  op = some (field_op enc);
}
decode bare enc f = f
