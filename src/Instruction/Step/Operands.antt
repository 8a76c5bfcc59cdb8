-- ===== src/Instruction/Step/Operands.antt =====
-- RS1, RS2 and the privilege tests of RiscvInstruction (include/riscv_instruction.h).
use dimebox.Common.{ℕ, Bool, ◌==◌}
use dimebox.Action.{Action, ◌>>=◌, gets, member}
use dimebox.State.{current_privilege_level}
use dimebox.Instruction.Fields.{Fields}
use dimebox.Instruction.Machine.{Machine, x_reg}

module _ {M : Type 0} (f : Fields) where
  -- RS1() and RS2().
  unfoldable pub rs1 : Action (Machine M) ℕ
  unfolding x_reg
  rs1 = do i ← member f.rs1; x_reg i

  unfoldable pub rs2 : Action (Machine M) ℕ
  unfolding x_reg
  rs2 = do i ← member f.rs2; x_reg i

unfoldable pub user_mode : {M : Type 0} → Action (Machine M) Bool
user_mode = gets (λ m. current_privilege_level m.state == 0)

unfoldable pub machine_mode : {M : Type 0} → Action (Machine M) Bool
machine_mode = gets (λ m. current_privilege_level m.state == 3)
