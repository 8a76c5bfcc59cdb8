-- ===== src/State/Registers.antt =====
-- The general purpose registers: GP and SetGP (include/riscv_core_state.h).
use dimebox.Common.{ℕ, ◌≡◌, ◌==◌, if◌then◌else◌, arith}
use dimebox.State.{RiscvState, gp, set_gp}

-- A read after a write gives the written value at the written register and the old value at any
-- other, and register 0 reads as zero whatever is written.
gp-set_gp :
    (i j v : ℕ) (s : RiscvState)
    → gp j (set_gp i v s) ≡ (if j == 0 then 0 else if j == i then v else gp j s)
unfolding gp set_gp
gp-set_gp i j v s = ground arith
