-- ===== src/Instruction/Encoding.antt =====
-- The 32-bit encodings that the RISC-V manual gives, as sums of their fields, against the Decode
-- methods of include/riscv_instruction.h.
use dimebox.Common.{
  ℕ, ◌+◌, ◌-◌, ◌*◌, ◌/◌, ◌%◌, ◌^◌, ◌<◌, ◌≡◌, sym, ap, arith, ◌∙◌, bit_and, bit_or, ◌>>>◌, ◌<<<◌,
  or_field, or_split, and_ones, or-zero,
}
use dimebox.Instruction.Fields.{
  field_rs1, field_rs2, field_rd, field_funct3, field_funct7, itype_imm, stype_imm, btype_imm,
  jtype_imm,
}

-- The places of the fields: seven bits, five, five, three, five, seven.
abbrev pub word : ℕ → ℕ → ℕ → ℕ → ℕ → ℕ → ℕ
word funct7 rs2 rs1 funct3 rd opcode =
    funct7 * 2 ^ 25 + rs2 * 2 ^ 20 + rs1 * 2 ^ 15 + funct3 * 2 ^ 12 + rd * 2 ^ 7 + opcode

pub record IsWord (funct7 rs2 rs1 funct3 rd opcode : ℕ) : Type 0 where
  pub funct7_lt : funct7 < 2 ^ 7
  pub rs2_lt : rs2 < 2 ^ 5
  pub rs1_lt : rs1 < 2 ^ 5
  pub funct3_lt : funct3 < 2 ^ 3
  pub rd_lt : rd < 2 ^ 5
  pub opcode_lt : opcode < 2 ^ 7

-- `(enc >> p) & (2 ^ k - 1)`.
field : (k x : ℕ) → bit_and x (2 ^ k - 1) ≡ x % 2 ^ k
field k x = and_ones k x

-- The parts of a branch offset and of a jump offset do not overlap.
join_branch :
    (a b c d : ℕ)
    → b < 2 ^ 6
    → c < 2 ^ 4
    → d < 2
    → bit_or (bit_or (bit_or (a <<< 12) (b <<< 5)) (c <<< 1)) (d <<< 11)
      ≡ a * 4096 + d * 2048 + b * 32 + c * 2
join_branch a b c d hb hc hd =
    let first = or_field 12 a (b * 2 ^ 5) (omega arith) in
    let second = or_field 5 (a * 2 ^ 7 + b) (c * 2) (omega arith) in
    let third = or_split 11 (a * 2) (b * 2 ^ 5 + c * 2) d 0 (omega arith) (omega arith) in
    let top = or_field 1 a d (omega arith) in
    let shape_one : a * 2 ^ 12 + b * 2 ^ 5 ≡ (a * 2 ^ 7 + b) * 2 ^ 5 = omega arith in
    let shape_two : (a * 2 ^ 7 + b) * 2 ^ 5 + c * 2 ≡ a * 2 * 2 ^ 11 + (b * 2 ^ 5 + c * 2) =
      omega arith in
    let shape_three : d * 2 ^ 11 + 0 ≡ d * 2 ^ 11 = omega arith in
    ap (λ (t : ℕ). bit_or (bit_or t (c <<< 1)) (d <<< 11)) (first ∙ shape_one)
    ∙ ap (λ (t : ℕ). bit_or t (d <<< 11)) (second ∙ shape_two)
    ∙ ap (bit_or (a * 2 * 2 ^ 11 + (b * 2 ^ 5 + c * 2))) (sym shape_three)
    ∙ third
    ∙ omega (arith, top, or-zero (b * 2 ^ 5 + c * 2))

join_jump :
    (a b c d : ℕ)
    → b < 2
    → c < 2 ^ 6
    → d < 2 ^ 4
    → bit_or (bit_or (bit_or (a <<< 12) (b <<< 11)) (c <<< 5)) (d <<< 1)
      ≡ a * 4096 + b * 2048 + c * 32 + d * 2
join_jump a b c d hb hc hd =
    let first = or_field 12 a (b * 2 ^ 11) (omega arith) in
    let second = or_field 11 (a * 2 + b) (c * 2 ^ 5) (omega arith) in
    let third = or_field 5 ((a * 2 + b) * 2 ^ 6 + c) (d * 2) (omega arith) in
    let shape_one : a * 2 ^ 12 + b * 2 ^ 11 ≡ (a * 2 + b) * 2 ^ 11 = omega arith in
    let shape_two : (a * 2 + b) * 2 ^ 11 + c * 2 ^ 5 ≡ ((a * 2 + b) * 2 ^ 6 + c) * 2 ^ 5 =
      omega arith in
    ap (λ (t : ℕ). bit_or (bit_or t (c <<< 5)) (d <<< 1)) (first ∙ shape_one)
    ∙ ap (λ (t : ℕ). bit_or t (d <<< 1)) (second ∙ shape_two)
    ∙ third
    ∙ omega arith

module _ (funct7 rs2 rs1 funct3 rd opcode : ℕ) (h : IsWord funct7 rs2 rs1 funct3 rd opcode) where
  abbrev w : ℕ
  w = word funct7 rs2 rs1 funct3 rd opcode

  pub field_rs1-word : field_rs1 w ≡ rs1
  unfolding field_rs1
  field_rs1-word =
      omega (arith, field 5 (w >>> 15), h.rs2_lt, h.rs1_lt, h.funct3_lt, h.rd_lt, h.opcode_lt)

  pub field_rs2-word : field_rs2 w ≡ rs2
  unfolding field_rs2
  field_rs2-word =
      omega (arith, field 5 (w >>> 20), h.rs2_lt, h.rs1_lt, h.funct3_lt, h.rd_lt, h.opcode_lt)

  pub field_rd-word : field_rd w ≡ rd
  unfolding field_rd
  field_rd-word = omega (arith, field 5 (w >>> 7), h.rd_lt, h.opcode_lt)

  pub field_funct3-word : field_funct3 w ≡ funct3
  unfolding field_funct3
  field_funct3-word = omega (arith, field 3 (w >>> 12), h.funct3_lt, h.rd_lt, h.opcode_lt)

  pub field_funct7-word : field_funct7 w ≡ funct7 % 2 ^ 6
  unfolding field_funct7
  field_funct7-word =
      omega (arith, field 6 (w >>> 25), h.rs2_lt, h.rs1_lt, h.funct3_lt, h.rd_lt, h.opcode_lt)

  high_part : w >>> 25 ≡ funct7
  high_part = omega (arith, h.rs2_lt, h.rs1_lt, h.funct3_lt, h.rd_lt, h.opcode_lt)

  middle_part : w >>> 20 ≡ funct7 * 32 + rs2
  middle_part = omega (arith, h.rs2_lt, h.rs1_lt, h.funct3_lt, h.rd_lt, h.opcode_lt)

  low_part : w >>> 7 ≡ ((funct7 * 32 + rs2) * 32 + rs1) * 8 * 32 + funct3 * 32 + rd
  low_part = omega (arith, h.rs2_lt, h.rs1_lt, h.funct3_lt, h.rd_lt, h.opcode_lt)

  upper_part : w >>> 12 ≡ (funct7 * 32 + rs2) * 256 + rs1 * 8 + funct3
  upper_part = omega (arith, h.rs2_lt, h.rs1_lt, h.funct3_lt, h.rd_lt, h.opcode_lt)

  -- The immediates, by the parts that they are read from.
  pub itype_imm-word : itype_imm w ≡ funct7 * 32 + rs2
  unfolding itype_imm
  itype_imm-word =
      ap (λ (t : ℕ). bit_and t 0xfff) middle_part
      ∙ omega (arith, field 12 (funct7 * 32 + rs2), h.funct7_lt, h.rs2_lt)

  pub stype_imm-word : stype_imm w ≡ funct7 * 32 + rd
  unfolding stype_imm
  stype_imm-word = omega (
    arith,
    or_field 5 (bit_and (w >>> 25) 0x7f) (bit_and (w >>> 7) 0x1f),
    field 7 (w >>> 25),
    field 5 (w >>> 7),
    high_part,
    low_part,
    h.funct7_lt,
    h.rd_lt,
  )

  pub btype_imm-word :
      btype_imm w ≡ funct7 / 64 * 4096 + rd % 2 * 2048 + funct7 % 64 * 32 + rd / 2 * 2
  unfolding btype_imm
  btype_imm-word =
      join_branch (bit_and (w >>> 31) 1) (bit_and (w >>> 25) 0x3f) (bit_and (w >>> 8) 0xf)
        (bit_and (w >>> 7) 1) (omega (arith, field 6 (w >>> 25))) (omega (arith, field 4 (w >>> 8)))
        (omega (arith, field 1 (w >>> 7)))
      ∙ omega (
        arith,
        field 1 (w >>> 31),
        field 6 (w >>> 25),
        field 4 (w >>> 8),
        field 1 (w >>> 7),
        high_part,
        low_part,
        h.funct7_lt,
        h.rd_lt,
      )

  pub jtype_imm-word :
      jtype_imm w ≡ (rs1 * 8 + funct3) * 4096 + rs2 % 2 * 2048 + funct7 % 64 * 32 + rs2 / 2 * 2
  unfolding jtype_imm
  jtype_imm-word =
      join_jump (bit_and (w >>> 12) 0xff) (bit_and (w >>> 20) 1) (bit_and (w >>> 25) 0x3f)
        (bit_and (w >>> 21) 0xf) (omega (arith, field 1 (w >>> 20)))
        (omega (arith, field 6 (w >>> 25))) (omega (arith, field 4 (w >>> 21)))
      ∙ omega (
        arith,
        field 8 (w >>> 12),
        field 1 (w >>> 20),
        field 6 (w >>> 25),
        field 4 (w >>> 21),
        high_part,
        middle_part,
        upper_part,
        h.rs2_lt,
        h.rs1_lt,
        h.funct3_lt,
      )
