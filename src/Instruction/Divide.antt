-- ===== src/Instruction/Divide.antt =====
-- DIV, REM and REMU (src/rv32i_instrs.C) by the magnitudes of their operands.
use dimebox.Common.{
  ℕ, zero, suc, Bool, true, false, not, Bool-cases, ◌+◌, ◌-◌, ◌*◌, ◌/◌, ◌%◌, ◌^◌, ◌<◌, ◌≤◌, ◌≡◌,
  refl, ap, arith, inl, inr, ◌==◌, ltb, u32, sub32, magnitude32, if◌then◌else◌, <-cases, ltb_of_<,
  ltb_of_≥,
}
use native.Mathlib.Nat.{add-mul, mul-add, div-add-mod', div-le_self}
use dimebox.Outcome.{done}
use dimebox.Instruction.Arith.{truncated, overflows, int_div, div_value, rem_value, remu_value}

-- The word of a magnitude that is to have a sign.
abbrev pub with_sign : Bool → ℕ → ℕ
with_sign positive m = if positive then m else sub32 0 m

-- Products at 32 bits with a negative word on either side.
times_negative : (q b n : ℕ) → b + n ≡ 2 ^ 32 → q * b % 2 ^ 32 ≡ sub32 0 (q * n)
times_negative q b n h = ground (arith, mul-add q b n, ap (λ (t : ℕ). q * t) h)

negative_times : (q b : ℕ) → q < 2 ^ 32 → sub32 0 q * b % 2 ^ 32 ≡ sub32 0 (q * b)
negative_times zero b h = ground arith
negative_times (suc q) b h =
    let word : sub32 0 (suc q) ≡ 2 ^ 32 - suc q = omega arith in
    rw word (
      ground
        (arith, complement, add-mul (2 ^ 32 - suc q) (suc q) b, ap (λ (t : ℕ). t * b) complement))
  where
    complement : 2 ^ 32 - suc q + suc q ≡ 2 ^ 32
    complement = omega arith

rem-positive : (m n b q r : ℕ) → q * n + r ≡ m → m < 2 ^ 32 → sub32 m (u32 (q * n)) ≡ r
rem-positive m n b q r h bound = omega arith

-- The remainder that is computed from a quotient: `a - q * b`, at 32 bits.
rem_pn :
    (m n q r : ℕ)
    → q * n + r ≡ m
    → m < 2 ^ 31
    → n ≤ 2 ^ 31
    → q < 2 ^ 32
    → sub32 m (u32 (sub32 0 q * (2 ^ 32 - n))) ≡ r
rem_pn m n q r h hm hn hq =
    ground (arith, negative_times q (2 ^ 32 - n) hq, times_negative q (2 ^ 32 - n) n (omega arith))

rem_np :
    (a m n q r : ℕ)
    → q * n + r ≡ m
    → a + m ≡ 2 ^ 32
    → q < 2 ^ 32
    → sub32 a (u32 (sub32 0 q * n)) ≡ sub32 0 r
rem_np a m n q r h hm hq = ground (arith, negative_times q n hq)

rem_nn :
    (a b m n q r : ℕ)
    → q * n + r ≡ m
    → a + m ≡ 2 ^ 32
    → b + n ≡ 2 ^ 32
    → sub32 a (u32 (q * b)) ≡ sub32 0 r
rem_nn a b m n q r h hm hn = ground (arith, times_negative q b n hn)

negative_divisor :
    (a b : ℕ)
    → a < 2 ^ 32
    → b < 2 ^ 32
    → a < 2 ^ 31
    → 2 ^ 31 ≤ b
    → sub32 a (u32 (sub32 0 (a / (2 ^ 32 - b)) * b)) ≡ a % (2 ^ 32 - b)
negative_divisor a b ha hb pa nb = ground (
  arith,
  rem_pn a (2 ^ 32 - b) (a / (2 ^ 32 - b)) (a % (2 ^ 32 - b)) (div-add-mod' a (2 ^ 32 - b)) pa
      (omega arith) (omega (arith, div-le_self a (2 ^ 32 - b))),
  ap (λ (t : ℕ). sub32 0 (a / (2 ^ 32 - b)) * t) complement,
)
  where
    complement : 2 ^ 32 - (2 ^ 32 - b) ≡ b
    complement = omega arith

-- The two operands of the overflow.
overflow_dividend : (a b : ℕ) → overflows a b ≡ true → a ≡ 0x80000000
overflow_dividend a b h = ground arith

overflow_divisor : (a b : ℕ) → overflows a b ≡ true → b ≡ 0xffffffff
overflow_divisor a b h = ground arith

abbrev same_sign : ℕ → ℕ → Bool
same_sign a b = if ltb a (2 ^ 31) then ltb b (2 ^ 31) else not (ltb b (2 ^ 31))

signed_quotient :
    (a b : ℕ) → truncated a b ≡ with_sign (same_sign a b) (magnitude32 a / magnitude32 b)
unfolding truncated
signed_quotient a b = elim (<-cases b (2 ^ 31)) [
  | inl h ↦ rw (ltb_of_< b (2 ^ 31) h, ltb_of_≥ (2 ^ 31 - 1) b (omega arith)) refl
  | inr h ↦ rw (ltb_of_≥ b (2 ^ 31) h, ltb_of_< (2 ^ 31 - 1) b (omega arith)) refl
]

-- DIV, for every two words, is defined: all ones for a divisor of 0, else the quotient of the
-- magnitudes with the sign that the signs of the operands give, the overflow included.
pub div_value_lem :
    (a b : ℕ)
    → div_value a b
      ≡ done
          (if b == 0 then 2 ^ 32 - 1 else with_sign (same_sign a b) (magnitude32 a / magnitude32 b))
unfolding div_value int_div
div_value_lem a b = elim (Bool-cases (b == 0)) [
  | inl h ↦ rw h refl
  | inr h ↦ elim (Bool-cases (overflows a b)) [
    | inl over ↦ rw (overflow_dividend a b over, overflow_divisor a b over) refl
    | inr usual ↦ rw (h, usual) (ap done (signed_quotient a b))
  ]
]

-- `a - (a / b) * b` for a divisor that is not 0.
signed_remainder :
    (a b : ℕ)
    → a < 2 ^ 32
    → b < 2 ^ 32
    → (b == 0) ≡ false
    → sub32 a (u32 (truncated a b * b)) ≡ with_sign (ltb a (2 ^ 31)) (magnitude32 a % magnitude32 b)
signed_remainder a b ha hb nonzero = elim (<-cases a (2 ^ 31)) [
  | inl pa ↦ elim (<-cases b (2 ^ 31)) [
    | inl pb ↦
        rw (signed_quotient a b, ltb_of_< a (2 ^ 31) pa, ltb_of_< b (2 ^ 31) pb)
          (rem-positive a b b (a / b) (a % b) (div-add-mod' a b) ha)
    | inr nb ↦
        rw (signed_quotient a b, ltb_of_< a (2 ^ 31) pa, ltb_of_≥ b (2 ^ 31) nb)
          (negative_divisor a b ha hb pa nb)
  ]
  | inr na ↦ elim (<-cases b (2 ^ 31)) [
    | inl pb ↦
        rw (signed_quotient a b, ltb_of_≥ a (2 ^ 31) na, ltb_of_< b (2 ^ 31) pb)
          (rem_np a (2 ^ 32 - a) b ((2 ^ 32 - a) / b) ((2 ^ 32 - a) % b)
            (div-add-mod' (2 ^ 32 - a) b) (omega arith) (omega (arith, div-le_self (2 ^ 32 - a) b)))
    | inr nb ↦
        rw (signed_quotient a b, ltb_of_≥ a (2 ^ 31) na, ltb_of_≥ b (2 ^ 31) nb)
          (rem_nn a b (2 ^ 32 - a) (2 ^ 32 - b) ((2 ^ 32 - a) / (2 ^ 32 - b))
            ((2 ^ 32 - a) % (2 ^ 32 - b)) (div-add-mod' (2 ^ 32 - a) (2 ^ 32 - b)) (omega arith)
            (omega arith))
  ]
]

-- REM, for every two words, is defined: the dividend for a divisor of 0, else the remainder of the
-- magnitudes with the sign of the dividend, the overflow included.
pub rem_value_lem :
    (a b : ℕ)
    → a < 2 ^ 32
    → b < 2 ^ 32
    → rem_value a b
      ≡ done (if b == 0 then a else with_sign (ltb a (2 ^ 31)) (magnitude32 a % magnitude32 b))
unfolding rem_value int_div
rem_value_lem a b ha hb = elim (Bool-cases (b == 0)) [
  | inl h ↦ rw h refl
  | inr h ↦ elim (Bool-cases (overflows a b)) [
    | inl over ↦ rw (overflow_dividend a b over, overflow_divisor a b over) refl
    | inr usual ↦ rw (h, usual) (ap done (signed_remainder a b ha hb h))
  ]
]

-- What REMU computes of two words is not the remainder `a % b` but the dividend less that
-- remainder, less `b`, at 32 bits.
remu_value_lem : (a b : ℕ) → a < 2 ^ 32 → b < 2 ^ 32 → remu_value a b ≡ sub32 (a - a % b) b
unfolding remu_value
remu_value_lem a b ha hb = ground (arith, div-add-mod' a b)
