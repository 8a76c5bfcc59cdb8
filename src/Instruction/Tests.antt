-- ===== src/Instruction/Tests.antt =====
-- The theorems on instructions, at concrete words and machines.
use dimebox.Common.{◌+◌, ◌-◌, ◌*◌, ◌^◌, ◌≡◌, refl, inr, arith, [], u32, ◌==◌}
use dimebox.Outcome.{done, runtime_error}
use dimebox.State.{gp, set_gp, set_pc, compressed_extension_enabled}
use dimebox.Instruction.Mnemonic.{Mnemonic}
use dimebox.Instruction.Machine.{MemoryPort, Machine, sign_extend}
use dimebox.Instruction.Arith.{div_value, rem_value, mulh_value}
use dimebox.Instruction.Execute.{execute}
use dimebox.Instruction.SignExtend.{sign_extend_lem}
use dimebox.Instruction.Multiply.{mulh_value_lem}
use dimebox.Instruction.Divide.{div_value_lem, rem_value_lem}
use dimebox.Instruction.Decoding.{b_word, j_word}
use dimebox.Instruction.Branches.{equal, execute-Branch}
use dimebox.Instruction.Jump.{execute-jal, execute-jal_far}
use dimebox.State.Tests.{core}

-- No memory.
abbrev no_memory : MemoryPort (Unit {0})
no_memory = record {
  read_memory = λ address size buffer m. (runtime_error, m);
  write_memory = λ address size aligned buffer m. (runtime_error, m);
}

abbrev machine : Machine (Unit {0})
machine = record { state = core; memory = tt; next_pc = 0x80000004; mbuf = []; m_ops = [] }

-- -5 at 12 bits.
sign_extend_lem_example : sign_extend 0xffb 12 ≡ 2 ^ 64 - 5
sign_extend_lem_example = sign_extend_lem 11 0xffb (omega arith) (omega arith)

-- -3 * 5 and -3 * -3.
mulh_value_lem_example : mulh_value 0xfffffffd 5 * 2 ^ 32 + u32 (0xfffffffd * 5) ≡ 2 ^ 64 - 15
mulh_value_lem_example = mulh_value_lem 0xfffffffd 5 (omega arith) (omega arith)

-- -7 / 2.
div_value_lem_example : div_value 0xfffffff9 2 ≡ done 0xfffffffd
div_value_lem_example = div_value_lem 0xfffffff9 2

rem_value_lem_example : rem_value 0xfffffff9 2 ≡ done 0xffffffff
rem_value_lem_example = rem_value_lem 0xfffffff9 2 (omega arith) (omega arith)

-- beq x1, x1, -8 at 0x80000000.
execute-Branch_example :
    execute no_memory Mnemonic.beq (b_word 0x1ff8 1 1 0 0x63) machine
    ≡ (done tt, record machine { next_pc = 0x7ffffff8; state = set_pc 0x7ffffff8 core })
unfolding gp compressed_extension_enabled
execute-Branch_example =
    execute-Branch no_memory Mnemonic.beq (λ a b. a == b) 0x1ff8 1 1 0 machine equal
      (record {
        imm_lt = omega arith;
        rs2_lt = omega arith;
        rs1_lt = omega arith;
        funct3_lt = omega arith;
        rd_lt = omega arith;
        opcode_lt = omega arith;
      })
      refl

-- jal x1, -8 at 0x80000000.
execute-jal_example : execute no_memory Mnemonic.jal (j_word 0x1ffff8 1 0x6f) machine ≡ (
  done tt,
  record machine { next_pc = 0x7ffffff8; state = set_pc 0x7ffffff8 (set_gp 1 0x80000004 core) },
)
unfolding compressed_extension_enabled
execute-jal_example =
    execute-jal no_memory 0x1ffff8 1 machine
      (record {
        imm_lt = omega arith;
        rs2_lt = omega arith;
        rs1_lt = omega arith;
        funct3_lt = omega arith;
        rd_lt = omega arith;
        opcode_lt = omega arith;
      })
      refl (inr (omega arith))

-- jal x1, 0x80008 at 0x80000000 goes to 0x7ff80008 and not to 0x80080008.
execute-jal_far_example : execute no_memory Mnemonic.jal (j_word 0x80008 1 0x6f) machine ≡ (
  done tt,
  record machine { next_pc = 0x7ff80008; state = set_pc 0x7ff80008 (set_gp 1 0x80000004 core) },
)
unfolding compressed_extension_enabled
execute-jal_far_example =
    execute-jal_far no_memory 0x80008 1 machine
      (record {
        imm_lt = omega arith;
        rs2_lt = omega arith;
        rs1_lt = omega arith;
        funct3_lt = omega arith;
        rd_lt = omega arith;
        opcode_lt = omega arith;
      })
      refl (omega arith) (omega arith)
