-- ===== src/Instruction/Arith.antt =====
-- The expressions of src/rv32i_instrs.C on 32-bit patterns that need more than one operator of C.
use dimebox.Common.{
  ℕ, Bool, ◌&&◌, ◌-◌, ◌*◌, ◌/◌, ◌^◌, ◌>>>◌, ◌==◌, ltb, u32, u64, sub32, sub64, magnitude32,
  if◌then◌else◌,
}
use dimebox.Outcome.{Outcome, done, undefined, ◌>>=◌}
use dimebox.Instruction.Machine.{sign_extend}

-- A quotient of two signed words, rounded towards zero.
unfoldable pub truncated : ℕ → ℕ → ℕ
truncated a b =
    let q = magnitude32 a / magnitude32 b in
    if (if ltb a (2 ^ 31) then ltb b (2 ^ 31) else ltb (2 ^ 31 - 1) b) then q else sub32 0 q

abbrev pub overflows : ℕ → ℕ → Bool
overflows a b = (a == 0x80000000) && (b == 0xffffffff)

-- `(int) a / (int) b`: a division by zero and a quotient that is no int are undefined.
unfoldable pub int_div : ℕ → ℕ → Outcome ℕ
unfolding truncated
int_div a b =
    if b == 0 then undefined else if overflows a b then undefined else done (truncated a b)

unfoldable pub div_value : ℕ → ℕ → Outcome ℕ
unfolding int_div
div_value a b =
    if b == 0 then done 0xffffffff else if overflows a b then done 0x80000000 else int_div a b

unfoldable pub divu_value : ℕ → ℕ → ℕ
divu_value a b = if b == 0 then 0xffffffff else a / b

unfoldable pub rem_value : ℕ → ℕ → Outcome ℕ
unfolding int_div
rem_value a b =
    if b == 0
    then done a
    else if overflows a b
    then done 0
    else int_div a b >>= λ rdq. done (sub32 a (u32 (rdq * b)))

-- The value for a divisor that is not 0.
unfoldable pub remu_value : ℕ → ℕ → ℕ
remu_value a b = u32 (sub64 (u64 (a / b * b)) b)

unfoldable pub mulhu_value : ℕ → ℕ → ℕ
mulhu_value a b = u32 (u64 (a * b) >>> 32)

unfoldable pub mulh_value : ℕ → ℕ → ℕ
unfolding sign_extend
mulh_value a b = u32 (u64 (sign_extend a 32 * sign_extend b 32) >>> 32)

unfoldable pub mulhsu_value : ℕ → ℕ → ℕ
unfolding sign_extend
mulhsu_value a b = u32 (u64 (sign_extend a 32 * b) >>> 32)

-- A right shift that copies the sign bit, for a shift below 32.
unfoldable pub shift_arithmetic : ℕ → ℕ → ℕ
unfolding sign_extend
shift_arithmetic a n = u32 (sign_extend (a >>> n) (32 - n))
