-- ===== src/Instruction/Jump.antt =====
-- JAL, from the encoding to the next PC and the link register (src/rv32i_instrs.C).
use dimebox.Common.{
  ℕ, Bool, true, false, ◌+◌, ◌-◌, ◌%◌, ◌^◌, ◌<◌, ◌≤◌, ◌≡◌, refl, ap, arith, ◌∙◌, ◌⊎◌, inl, inr, u32,
  u64, sub64, ltb, if◌then◌else◌, some,
}
use dimebox.Exceptions.{SimException}
use dimebox.Action.{Action, ◌>>◌}
use dimebox.Outcome.{Outcome, done, thrown}
use dimebox.State.{set_pc, set_gp, record_misaligned_address}
use dimebox.State.Trap.{process_exception}
use dimebox.Instruction.Mnemonic.{Mnemonic, format}
use dimebox.Instruction.Fields.{Fields, no_fields}
use dimebox.Instruction.Machine.{MemoryPort, Machine, branch_to, set_x, pc, sign_extend}
use dimebox.Instruction.Step.{step}
use dimebox.Instruction.Step.Base.{step_integer}
use dimebox.Instruction.Execute.{execute, catch_exception, advance_pc, exception}
use dimebox.Instruction.SignExtend.{sign_extend_lem}
use dimebox.Instruction.Decoding.{j_word, IsOperands, decode-j_word}
use dimebox.Instruction.Branches.{displaced, is_misaligned, trapped, after_branch, finish}

-- The sign bit of a jump offset is lost: bit 19 is read as the sign of the rest.
extended_offset :
    (offset : ℕ)
    → sign_extend (offset % 2 ^ 20) 20
      ≡ (let low = offset % 2 ^ 20 in if ltb low (2 ^ 19) then low else low + 2 ^ 64 - 2 ^ 20)
extended_offset offset = sign_extend_lem 19 (offset % 2 ^ 20) (omega arith) (omega arith)

near_offset :
    (here offset : ℕ)
    → offset < 2 ^ 21
    → (offset < 2 ^ 19) ⊎ (2 ^ 21 - 2 ^ 19 ≤ offset)
    → u64 (here + sign_extend (offset % 2 ^ 20) 20) ≡ displaced 20 here offset
near_offset here offset h (inl near) = ground (arith, extended_offset offset)
near_offset here offset h (inr near) = ground (arith, extended_offset offset)

far_offset :
    (here offset : ℕ)
    → 2 ^ 19 ≤ offset
    → offset < 2 ^ 21 - 2 ^ 19
    → u64 (here + sign_extend (offset % 2 ^ 20) 20) ≡ (
        if ltb offset (2 ^ 20)
        then sub64 (displaced 20 here offset) (2 ^ 20)
        else u64 (displaced 20 here offset + 2 ^ 20))
far_offset here offset low high = ground (arith, extended_offset offset)

module _ {M : Type 0} (p : MemoryPort M) where
  -- The target is the PC, and the register has the address of the next instruction.
  abbrev pub linked : ℕ → ℕ → Machine M → Outcome (Unit {0}) × Machine M
  linked rd target m = (
    done tt,
    record m {
      next_pc = u32 target;
      state = set_pc (u32 target) (set_gp rd (u32 (u32 m.state.pc + 4)) m.state);
    },
  )

  abbrev pub jump_and_link : ℕ → ℕ → Machine M → Outcome (Unit {0}) × Machine M
  jump_and_link rd target m =
      if is_misaligned target m then trapped target m else linked rd target m

  jump_fields : ℕ → ℕ → Fields
  jump_fields imm rd = record no_fields { imm = some imm; rd = some rd }

  -- JAL by what SetPC finds of the target.
  after_jump : Bool → ℕ → ℕ → Action (Machine M) (Unit {0})
  unfolding set_x pc
  after_jump misaligned rd target m =
      if misaligned
      then (
        thrown SimException.instruction_address_misaligned,
        record m { state = record_misaligned_address target m.state },
      )
      else (
        done tt,
        record m { next_pc = u32 target; state = set_gp rd (u32 (u32 m.state.pc + 4)) m.state },
      )

  after_jump_lem :
      (misaligned : Bool) (rd target : ℕ) (m : Machine M)
      → catch_exception (after_jump misaligned rd target >> advance_pc) m
        ≡ (if misaligned then trapped target m else linked rd target m)
  unfolding after_jump catch_exception advance_pc exception process_exception
  after_jump_lem true rd target m = refl
  after_jump_lem false rd target m = refl

  link_after :
      (misaligned : Bool) (rd target : ℕ) (m : Machine M)
      → ((λ _. after_branch misaligned target m) >> set_x rd (u32 m.state.pc + 4)) m
        ≡ after_jump misaligned rd target m
  unfolding after_branch after_jump set_x
  link_after true rd target m = refl
  link_after false rd target m = refl

  step-jal :
      (imm rd : ℕ) (m : Machine M)
      → step p (jump_fields imm rd) Mnemonic.jal m ≡ (
          let target = u64 (u32 m.state.pc + sign_extend imm 20) in
          after_jump (is_misaligned target m) rd target m)
  unfolding step step_integer pc set_x branch_to after_branch jump_fields
  step-jal imm rd m =
      let target = u64 (u32 m.state.pc + sign_extend imm 20) in
      link_after (is_misaligned target m) rd target m

  execute-j_word :
      (offset rd : ℕ) (m : Machine M)
      → IsOperands (2 ^ 21) offset 0 0 0 rd 0x6f
      → offset % 2 ≡ 0
      → execute p Mnemonic.jal (j_word offset rd 0x6f) m
        ≡ jump_and_link rd (u64 (u32 m.state.pc + sign_extend (offset % 2 ^ 20) 20)) m
  unfolding execute finish format jump_fields
  execute-j_word offset rd m h even =
      let target = u64 (u32 m.state.pc + sign_extend (offset % 2 ^ 20) 20) in
      ap (λ f. finish m (step p f Mnemonic.jal m)) (decode-j_word offset rd 0x6f h even)
      ∙ ap (finish m) (step-jal (offset % 2 ^ 20) rd m)
      ∙ after_jump_lem (is_misaligned target m) rd target m

  -- JAL with an even offset of less than 512 KiB either way jumps to the address plus the signed
  -- offset and leaves the address of the next instruction in rd, or enters the trap of a misaligned
  -- fetch with no other effect.
  pub execute-jal :
      (offset rd : ℕ) (m : Machine M)
      → IsOperands (2 ^ 21) offset 0 0 0 rd 0x6f
      → offset % 2 ≡ 0
      → (offset < 2 ^ 19) ⊎ (2 ^ 21 - 2 ^ 19 ≤ offset)
      → execute p Mnemonic.jal (j_word offset rd 0x6f) m
        ≡ jump_and_link rd (displaced 20 (u32 m.state.pc) offset) m
  execute-jal offset rd m h even near =
      execute-j_word offset rd m h even
      ∙ ap (λ t. jump_and_link rd t m) (near_offset (u32 m.state.pc) offset h.imm_lt near)

  -- JAL with an even offset of 512 KiB or more either way jumps 1 MiB away from where the offset
  -- points.
  pub execute-jal_far :
      (offset rd : ℕ) (m : Machine M)
      → IsOperands (2 ^ 21) offset 0 0 0 rd 0x6f
      → offset % 2 ≡ 0
      → 2 ^ 19 ≤ offset
      → offset < 2 ^ 21 - 2 ^ 19
      → execute p Mnemonic.jal (j_word offset rd 0x6f) m
        ≡ jump_and_link rd
            (if ltb offset (2 ^ 20)
              then sub64 (displaced 20 (u32 m.state.pc) offset) (2 ^ 20)
              else u64 (displaced 20 (u32 m.state.pc) offset + 2 ^ 20))
            m
  execute-jal_far offset rd m h even low high =
      execute-j_word offset rd m h even
      ∙ ap (λ t. jump_and_link rd t m) (far_offset (u32 m.state.pc) offset low high)
