-- ===== src/Instruction/Branches.antt =====
-- The conditional branches, from the encoding to the next PC (src/rv32i_instrs.C).
use dimebox.Common.{
  ℕ, Bool, true, false, not, ◌+◌, ◌-◌, ◌%◌, ◌^◌, ◌<◌, ◌≡◌, refl, ap, arith, ◌∙◌, bit_and, u32, u64,
  ltb, leb, slt32, ◌==◌, ◌!=◌, if◌then◌else◌, some,
}
use dimebox.Exceptions.{SimException}
use dimebox.Action.{◌>>◌}
use dimebox.Outcome.{Outcome, done, thrown}
use dimebox.State.{set_pc, gp, compressed_extension_enabled, record_misaligned_address}
use dimebox.State.Trap.{misaligned_fetch, process_exception}
use dimebox.Instruction.Mnemonic.{Mnemonic, b_type, format}
use dimebox.Instruction.Fields.{Fields, no_fields, decode}
use dimebox.Instruction.Machine.{MemoryPort, Machine, branch_to, x_reg, pc, sign_extend}
use dimebox.Instruction.Step.{step}
use dimebox.Instruction.Step.Base.{step_integer}
use dimebox.Instruction.Step.Operands.{rs1, rs2}
use dimebox.Instruction.Execute.{execute, catch_exception, advance_pc, exception}
use dimebox.Instruction.SignExtend.{sign_extend_lem}
use dimebox.Instruction.Decoding.{b_word, IsOperands, decode-b_word}

-- When a branch is taken, by the two registers.
pub data Branch : Mnemonic → (ℕ → ℕ → Bool) → Type 0 where
  equal : Branch Mnemonic.beq (λ a b. a == b)
  not_equal : Branch Mnemonic.bne (λ a b. not (a == b))
  less : Branch Mnemonic.blt slt32
  less_unsigned : Branch Mnemonic.bltu ltb
  not_less : Branch Mnemonic.bge (λ a b. not (slt32 a b))
  not_less_unsigned : Branch Mnemonic.bgeu (λ a b. not (ltb a b))

-- `here` and an offset of `k + 1` bits, at 64 bits.
abbrev pub displaced : ℕ → ℕ → ℕ → ℕ
displaced k here offset =
    u64 (here + (if ltb offset (2 ^ k) then offset else offset + 2 ^ 64 - 2 ^ (k + 1)))

module _ {M : Type 0} where
  abbrev pub is_misaligned : ℕ → Machine M → Bool
  is_misaligned target m =
      bit_and target (if compressed_extension_enabled m.state then 1 else 3) != 0

  abbrev pub trapped : ℕ → Machine M → Outcome (Unit {0}) × Machine M
  trapped target m = (
    done tt,
    record m {
      state =
          misaligned_fetch SimException.instruction_address_misaligned
            (record_misaligned_address target m.state);
    },
  )

  abbrev pub jumped : ℕ → Machine M → Outcome (Unit {0}) × Machine M
  jumped target m =
      (done tt, record m { next_pc = u32 target; state = set_pc (u32 target) m.state })

  -- A jump: the PC is the target, or the trap of a misaligned fetch is entered.
  abbrev pub jump_to : ℕ → Machine M → Outcome (Unit {0}) × Machine M
  jump_to target m = if is_misaligned target m then trapped target m else jumped target m

  -- SetPC, by what it finds of the target.
  unfoldable pub after_branch : Bool → ℕ → Machine M → Outcome (Unit {0}) × Machine M
  after_branch misaligned target m =
      if misaligned
      then (
        thrown SimException.instruction_address_misaligned,
        record m { state = record_misaligned_address target m.state },
      )
      else (done tt, record m { next_pc = u32 target })

  unfoldable pub finish :
      Machine M → Outcome (Unit {0}) × Machine M → Outcome (Unit {0}) × Machine M
  finish m r = catch_exception ((λ _. r) >> advance_pc) m

  finish_branch :
      (misaligned : Bool) (target : ℕ) (m : Machine M)
      → finish m (after_branch misaligned target m)
        ≡ (if misaligned then trapped target m else jumped target m)
  unfolding finish after_branch catch_exception advance_pc exception process_exception
  finish_branch true target m = refl
  finish_branch false target m = refl

  pub branch_to_lem :
      (target : ℕ) (m : Machine M)
      → catch_exception (branch_to target 4 >> advance_pc) m ≡ jump_to target m
  unfolding catch_exception branch_to finish after_branch
  branch_to_lem target m = finish_branch (is_misaligned target m) target m

Branch-format : (name : Mnemonic) (taken : ℕ → ℕ → Bool) → Branch name taken → format name ≡ b_type
unfolding format
Branch-format _ _ equal = refl
Branch-format _ _ not_equal = refl
Branch-format _ _ less = refl
Branch-format _ _ less_unsigned = refl
Branch-format _ _ not_less = refl
Branch-format _ _ not_less_unsigned = refl

-- `a != b` is the negation of `a == b`.
!=-not : (a b : ℕ) → (a != b) ≡ not (a == b)
!=-not a b = ground arith

>=-not : (a b : ℕ) → leb b a ≡ not (ltb a b)
>=-not a b = ground arith

abbrev pub branch_target : Bool → ℕ → ℕ → ℕ
branch_target taken here offset = if taken then displaced 12 here offset else u64 (here + 4)

branch_target_lem :
    (taken : Bool) (here offset : ℕ)
    → offset < 2 ^ 13
    → u64 (here + (if taken then sign_extend offset 13 else 4)) ≡ branch_target taken here offset
branch_target_lem true here offset h =
    ap (λ (t : ℕ). u64 (here + t)) (sign_extend_lem 12 offset (omega arith) h)
branch_target_lem false here offset h = refl

module _ {M : Type 0} (p : MemoryPort M) where
  abbrev operands : ℕ → ℕ → ℕ → ℕ → Fields
  operands offset second first funct3 = record no_fields {
    imm = some offset;
    rs2 = some second;
    rs1 = some first;
    funct3 = some funct3;
  }

  -- The registers are compared and one of two targets is taken.
  step-Branch :
      (name : Mnemonic) (taken : ℕ → ℕ → Bool) (offset second first funct3 : ℕ) (m : Machine M)
      → Branch name taken
      → step p (operands offset second first funct3) name m
        ≡ branch_to
            (u64 (
              u32 m.state.pc
              + (if taken (u32 (gp first m.state)) (u32 (gp second m.state))
                  then sign_extend offset 13
                  else 4)))
            4
            m
  unfolding step step_integer x_reg pc rs1 rs2
  step-Branch _ _ offset second first funct3 m equal = refl
  step-Branch _ _ offset second first funct3 m not_equal =
      ap
        (λ (t : Bool).
          branch_to (u64 (u32 m.state.pc + (if t then sign_extend offset 13 else 4))) 4 m)
        (!=-not (u32 (gp first m.state)) (u32 (gp second m.state)))
  step-Branch _ _ offset second first funct3 m less = refl
  step-Branch _ _ offset second first funct3 m less_unsigned = refl
  step-Branch _ _ offset second first funct3 m not_less = refl
  step-Branch _ _ offset second first funct3 m not_less_unsigned =
      ap
        (λ (t : Bool).
          branch_to (u64 (u32 m.state.pc + (if t then sign_extend offset 13 else 4))) 4 m)
        (>=-not (u32 (gp first m.state)) (u32 (gp second m.state)))

  -- A conditional branch with an even offset of thirteen bits: whether it is taken is the comparison
  -- of the two registers; then the PC is the address plus the signed offset, else that of the next
  -- instruction; and a misaligned target is a trap with no other effect.
  pub execute-Branch :
      (name : Mnemonic) (taken : ℕ → ℕ → Bool) (offset second first funct3 : ℕ) (m : Machine M)
      → Branch name taken
      → IsOperands (2 ^ 13) offset second first funct3 0 0x63
      → offset % 2 ≡ 0
      → execute p name (b_word offset second first funct3 0x63) m
        ≡ jump_to
            (branch_target
              (taken (u32 (gp first m.state)) (u32 (gp second m.state)))
              (u32 m.state.pc)
              offset)
            m
  unfolding execute finish
  execute-Branch name taken offset second first funct3 m branch h even =
      ap
        (λ kind.
          finish m (step p (decode kind (b_word offset second first funct3 0x63) no_fields) name m))
        (Branch-format name taken branch)
      ∙ ap (λ f. finish m (step p f name m)) (decode-b_word offset second first funct3 0x63 h even)
      ∙ ap (finish m) (step-Branch name taken offset second first funct3 m branch)
      ∙ branch_to_lem
          (u64 (
            u32 m.state.pc
            + (if taken (u32 (gp first m.state)) (u32 (gp second m.state))
                then sign_extend offset 13
                else 4)))
          m
      ∙ ap (λ t. jump_to t m)
          (branch_target_lem (taken (u32 (gp first m.state)) (u32 (gp second m.state)))
            (u32 m.state.pc) offset h.imm_lt)
