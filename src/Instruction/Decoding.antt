-- ===== src/Instruction/Decoding.antt =====
-- Decode of include/riscv_instruction.h on the words that an assembler encodes.
use dimebox.Common.{ℕ, ◌+◌, ◌*◌, ◌/◌, ◌%◌, ◌^◌, ◌<◌, ◌≡◌, refl, arith, ◌∙◌, some}
use dimebox.Instruction.Mnemonic.{r_type, i_type, s_type, b_type, j_type}
use dimebox.Instruction.Fields.{no_fields, decode, itype_imm, stype_imm, btype_imm, jtype_imm}
use dimebox.Instruction.Encoding.{
  word, IsWord, field_rs1-word, field_rs2-word, field_rd-word, field_funct3-word, field_funct7-word,
  itype_imm-word, stype_imm-word, btype_imm-word, jtype_imm-word,
}

-- The encodings with an immediate, whose parts take the places of other fields.
abbrev pub i_word : ℕ → ℕ → ℕ → ℕ → ℕ → ℕ
i_word imm rs1 funct3 rd opcode = word (imm / 32) (imm % 32) rs1 funct3 rd opcode

abbrev pub s_word : ℕ → ℕ → ℕ → ℕ → ℕ → ℕ
s_word imm rs2 rs1 funct3 opcode = word (imm / 32) rs2 rs1 funct3 (imm % 32) opcode

abbrev pub b_word : ℕ → ℕ → ℕ → ℕ → ℕ → ℕ
b_word offset rs2 rs1 funct3 opcode =
    word (offset / 4096 * 64 + offset / 32 % 64) rs2 rs1 funct3
      (offset / 2 % 16 * 2 + offset / 2048 % 2) opcode

abbrev pub j_word : ℕ → ℕ → ℕ → ℕ
j_word offset rd opcode =
    word (offset / 2 ^ 20 * 64 + offset / 32 % 64) (offset / 2 % 16 * 2 + offset / 2048 % 2)
      (offset / 2 ^ 15 % 32) (offset / 2 ^ 12 % 8) rd opcode

-- The operands that a register, an immediate, a store and a branch instruction are given.
pub record IsOperands (imm_bound imm rs2 rs1 funct3 rd opcode : ℕ) : Type 0 where
  pub imm_lt : imm < imm_bound
  pub rs2_lt : rs2 < 2 ^ 5
  pub rs1_lt : rs1 < 2 ^ 5
  pub funct3_lt : funct3 < 2 ^ 3
  pub rd_lt : rd < 2 ^ 5
  pub opcode_lt : opcode < 2 ^ 7

-- The register format gives back the three registers and the function; of the seven bits of
-- funct7 the lower six are kept.
decode-word :
    (funct7 rs2 rs1 funct3 rd opcode : ℕ)
    → IsWord funct7 rs2 rs1 funct3 rd opcode
    → decode r_type (word funct7 rs2 rs1 funct3 rd opcode) no_fields ≡ record no_fields {
      funct7 = some (funct7 % 2 ^ 6);
      rs2 = some rs2;
      rs1 = some rs1;
      funct3 = some funct3;
      rd = some rd;
    }
unfolding decode no_fields
decode-word funct7 rs2 rs1 funct3 rd opcode h =
    rw
      (
        field_funct7-word funct7 rs2 rs1 funct3 rd opcode h,
        field_rs2-word funct7 rs2 rs1 funct3 rd opcode h,
        field_rs1-word funct7 rs2 rs1 funct3 rd opcode h,
        field_funct3-word funct7 rs2 rs1 funct3 rd opcode h,
        field_rd-word funct7 rs2 rs1 funct3 rd opcode h,
      )
      refl

-- The immediate format gives back the immediate of twelve bits and the registers.
decode-i_word :
    (imm rs1 funct3 rd opcode : ℕ)
    → IsOperands (2 ^ 12) imm 0 rs1 funct3 rd opcode
    → decode i_type (i_word imm rs1 funct3 rd opcode) no_fields
      ≡ record no_fields { imm = some imm; rs1 = some rs1; funct3 = some funct3; rd = some rd }
unfolding decode no_fields
decode-i_word imm rs1 funct3 rd opcode h =
    let fits : IsWord (imm / 32) (imm % 32) rs1 funct3 rd opcode = record {
      funct7_lt = omega (arith, h.imm_lt);
      rs2_lt = omega (arith, h.rs2_lt, h.imm_lt);
      rs1_lt = omega (arith, h.rs1_lt);
      funct3_lt = omega (arith, h.funct3_lt);
      rd_lt = omega (arith, h.rd_lt, h.imm_lt);
      opcode_lt = h.opcode_lt;
    } in
    let immediate : itype_imm (i_word imm rs1 funct3 rd opcode) ≡ imm =
      itype_imm-word (imm / 32) (imm % 32) rs1 funct3 rd opcode fits ∙ omega (arith, h.imm_lt) in
    rw
      (
        immediate,
        field_rs1-word (imm / 32) (imm % 32) rs1 funct3 rd opcode fits,
        field_funct3-word (imm / 32) (imm % 32) rs1 funct3 rd opcode fits,
        field_rd-word (imm / 32) (imm % 32) rs1 funct3 rd opcode fits,
      )
      refl

-- The store format gives back the immediate, whose low five bits stand where rd is in others.
decode-s_word :
    (imm rs2 rs1 funct3 opcode : ℕ)
    → IsOperands (2 ^ 12) imm rs2 rs1 funct3 0 opcode
    → decode s_type (s_word imm rs2 rs1 funct3 opcode) no_fields
      ≡ record no_fields { imm = some imm; rs2 = some rs2; rs1 = some rs1; funct3 = some funct3 }
unfolding decode no_fields
decode-s_word imm rs2 rs1 funct3 opcode h =
    let fits : IsWord (imm / 32) rs2 rs1 funct3 (imm % 32) opcode = record {
      funct7_lt = omega (arith, h.imm_lt);
      rs2_lt = omega (arith, h.rs2_lt, h.imm_lt);
      rs1_lt = omega (arith, h.rs1_lt);
      funct3_lt = omega (arith, h.funct3_lt);
      rd_lt = omega (arith, h.rd_lt, h.imm_lt);
      opcode_lt = h.opcode_lt;
    } in
    let immediate : stype_imm (s_word imm rs2 rs1 funct3 opcode) ≡ imm =
      stype_imm-word (imm / 32) rs2 rs1 funct3 (imm % 32) opcode fits ∙ omega (arith, h.imm_lt) in
    rw
      (
        immediate,
        field_rs2-word (imm / 32) rs2 rs1 funct3 (imm % 32) opcode fits,
        field_rs1-word (imm / 32) rs2 rs1 funct3 (imm % 32) opcode fits,
        field_funct3-word (imm / 32) rs2 rs1 funct3 (imm % 32) opcode fits,
      )
      refl

-- The branch format gives back an even offset of thirteen bits from its four parts.
pub decode-b_word :
    (offset rs2 rs1 funct3 opcode : ℕ)
    → IsOperands (2 ^ 13) offset rs2 rs1 funct3 0 opcode
    → offset % 2 ≡ 0
    → decode b_type (b_word offset rs2 rs1 funct3 opcode) no_fields
      ≡ record no_fields { imm = some offset; rs2 = some rs2; rs1 = some rs1; funct3 = some funct3 }
unfolding decode no_fields
decode-b_word offset rs2 rs1 funct3 opcode h even =
    let fits : IsWord (offset / 4096 * 64 + offset / 32 % 64) rs2 rs1 funct3
        (offset / 2 % 16 * 2 + offset / 2048 % 2) opcode =
      record {
        funct7_lt = omega (arith, h.imm_lt);
        rs2_lt = omega (arith, h.rs2_lt, h.imm_lt);
        rs1_lt = omega (arith, h.rs1_lt);
        funct3_lt = omega (arith, h.funct3_lt);
        rd_lt = omega (arith, h.rd_lt, h.imm_lt);
        opcode_lt = h.opcode_lt;
      } in
    let immediate : btype_imm (b_word offset rs2 rs1 funct3 opcode) ≡ offset =
      btype_imm-word (offset / 4096 * 64 + offset / 32 % 64) rs2 rs1 funct3
        (offset / 2 % 16 * 2 + offset / 2048 % 2) opcode fits
      ∙ omega (arith, h.imm_lt) in
    rw
      (
        immediate,
        field_rs2-word (offset / 4096 * 64 + offset / 32 % 64) rs2 rs1 funct3
            (offset / 2 % 16 * 2 + offset / 2048 % 2) opcode fits,
        field_rs1-word (offset / 4096 * 64 + offset / 32 % 64) rs2 rs1 funct3
            (offset / 2 % 16 * 2 + offset / 2048 % 2) opcode fits,
        field_funct3-word (offset / 4096 * 64 + offset / 32 % 64) rs2 rs1 funct3
            (offset / 2 % 16 * 2 + offset / 2048 % 2) opcode fits,
      )
      refl

-- The jump format gives back an even offset without its sign bit, bit 20.
pub decode-j_word :
    (offset rd opcode : ℕ)
    → IsOperands (2 ^ 21) offset 0 0 0 rd opcode
    → offset % 2 ≡ 0
    → decode j_type (j_word offset rd opcode) no_fields
      ≡ record no_fields { imm = some (offset % 2 ^ 20); rd = some rd }
unfolding decode no_fields
decode-j_word offset rd opcode h even =
    let fits : IsWord (offset / 2 ^ 20 * 64 + offset / 32 % 64)
        (offset / 2 % 16 * 2 + offset / 2048 % 2) (offset / 2 ^ 15 % 32) (offset / 2 ^ 12 % 8) rd
        opcode =
      record {
        funct7_lt = omega (arith, h.imm_lt);
        rs2_lt = omega (arith, h.rs2_lt, h.imm_lt);
        rs1_lt = omega (arith, h.rs1_lt);
        funct3_lt = omega (arith, h.funct3_lt);
        rd_lt = omega (arith, h.rd_lt, h.imm_lt);
        opcode_lt = h.opcode_lt;
      } in
    let immediate : jtype_imm (j_word offset rd opcode) ≡ (offset % 2 ^ 20) =
      jtype_imm-word (offset / 2 ^ 20 * 64 + offset / 32 % 64)
        (offset / 2 % 16 * 2 + offset / 2048 % 2) (offset / 2 ^ 15 % 32) (offset / 2 ^ 12 % 8) rd
        opcode fits
      ∙ omega (arith, h.imm_lt) in
    rw
      (
        immediate,
        field_rd-word (offset / 2 ^ 20 * 64 + offset / 32 % 64)
            (offset / 2 % 16 * 2 + offset / 2048 % 2) (offset / 2 ^ 15 % 32) (offset / 2 ^ 12 % 8)
            rd opcode fits,
      )
      refl
