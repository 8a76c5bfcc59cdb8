-- ===== src/Instruction/Multiply.antt =====
-- The high words of MUL (src/rv32i_instrs.C): the product of a sign and a magnitude.
use dimebox.Common.{
  ℕ, zero, suc, Bool, true, not, ◌+◌, ◌-◌, ◌*◌, ◌/◌, ◌%◌, ◌^◌, ◌<◌, ◌≤◌, ◌≡◌, sym, ap, arith, ◌∙◌,
  inl, inr, ◌>>>◌, ltb, u32, u64, magnitude32, if◌then◌else◌, <-cases, ltb_of_<, ltb_of_≥,
}
use native.Mathlib.Nat.{mul_comm, add-mul, mul-add, mul-le-mul}
use dimebox.Instruction.Machine.{sign_extend}
use dimebox.Instruction.SignExtend.{sign_extend_lem}
use dimebox.Instruction.Arith.{mulhu_value, mulh_value, mulhsu_value}

-- A product of two magnitudes at 64 bits, negated where the signs differ.
abbrev pub signed_product : Bool → Bool → ℕ → ℕ → ℕ
signed_product positive positive' m n =
    if (if positive then positive' else not positive') then m * n else u64 (2 ^ 64 - m * n)

-- A signed word at 64 bits.
pub sign_extend_32 :
    (a : ℕ) → a < 2 ^ 32 → sign_extend a 32 ≡ (if ltb a (2 ^ 31) then a else a + 2 ^ 64 - 2 ^ 32)
sign_extend_32 a h = sign_extend_lem 31 a (omega arith) h

-- The two words of a product at 64 bits.
two_words : (p low : ℕ) → p % 2 ^ 32 ≡ low → u32 (u64 p >>> 32) * 2 ^ 32 + low ≡ p % 2 ^ 64
two_words p low h = omega arith

-- Multiplication of negative words, as they stand at 64 bits.
mul-negative :
    (x m b : ℕ) → x + m ≡ 2 ^ 64 → m * b ≤ 2 ^ 64 → x * b % 2 ^ 64 ≡ (2 ^ 64 - m * b) % 2 ^ 64
mul-negative x m zero h bound = ground arith
mul-negative x m (suc b) h bound = ground (arith, add-mul x m (suc b), ap (λ (t : ℕ). t * suc b) h)

mul-negatives :
    (x m y n : ℕ) → x + m ≡ 2 ^ 64 → y + n ≡ 2 ^ 64 → m * n < 2 ^ 64 → x * y % 2 ^ 64 ≡ m * n
mul-negatives x m y n hx hy bound =
    ground (arith, add-mul x m y, mul-add m y n, ap (λ (t : ℕ). t * y) hx, ap (λ (t : ℕ). m * t) hy)

-- Magnitudes of words have products far below 2 ^ 64.
small_product : (m n : ℕ) → m ≤ 2 ^ 31 → n ≤ 2 ^ 32 → m * n < 2 ^ 64
small_product m n hm hn = omega (arith, mul-le-mul hm hn)

square_bound : (a b : ℕ) → a < 2 ^ 32 → b < 2 ^ 32 → a * b < 2 ^ 64
square_bound a b ha hb = omega (
  arith,
  mul-le-mul {n₁ = a} {m₁ = b} {n₂ = 2 ^ 32 - 1} {m₂ = 2 ^ 32 - 1} (omega arith) (omega arith),
)

low_word : (a j b : ℕ) → (a + 2 ^ 32 * j) * b % 2 ^ 32 ≡ a * b % 2 ^ 32
low_word a j b = ground (arith, add-mul a (2 ^ 32 * j) b)

-- A word is congruent to its signed reading.
low_words : (x y a b : ℕ) → x % 2 ^ 32 ≡ a → y % 2 ^ 32 ≡ b → x * y % 2 ^ 32 ≡ a * b % 2 ^ 32
low_words x y a b hx hy =
    let ex : a + 2 ^ 32 * (x / 2 ^ 32) ≡ x = omega arith in
    let ey : b + 2 ^ 32 * (y / 2 ^ 32) ≡ y = omega arith in
    ap (λ (t : ℕ). t * y % 2 ^ 32) (sym ex)
    ∙ low_word a (x / 2 ^ 32) y
    ∙ ap (λ (t : ℕ). t % 2 ^ 32) (mul_comm a y)
    ∙ ap (λ (t : ℕ). t * a % 2 ^ 32) (sym ey)
    ∙ low_word b (y / 2 ^ 32) a
    ∙ ap (λ (t : ℕ). t % 2 ^ 32) (mul_comm b a)

extended_low : (a : ℕ) → a < 2 ^ 32 → sign_extend a 32 % 2 ^ 32 ≡ a
extended_low a h = ground (arith, sign_extend_32 a h)

-- The product of two extended words is the product of the signed numbers, at 64 bits.
extended_product :
    (a b : ℕ)
    → a < 2 ^ 32
    → b < 2 ^ 32
    → sign_extend a 32 * sign_extend b 32 % 2 ^ 64
      ≡ signed_product (ltb a (2 ^ 31)) (ltb b (2 ^ 31)) (magnitude32 a) (magnitude32 b)
extended_product a b ha hb = elim (<-cases a (2 ^ 31)) [
  | inl pa ↦ elim (<-cases b (2 ^ 31)) [
    | inl pb ↦
        rw
          (sign_extend_32 a ha, sign_extend_32 b hb, ltb_of_< a (2 ^ 31) pa, ltb_of_< b (2 ^ 31) pb)
          (omega (arith, small_product a b (omega arith) (omega arith)))
    | inr nb ↦
        rw
          (sign_extend_32 a ha, sign_extend_32 b hb, ltb_of_< a (2 ^ 31) pa, ltb_of_≥ b (2 ^ 31) nb)
          (ground (
            arith,
            mul_comm a (b + 2 ^ 64 - 2 ^ 32),
            mul_comm a (2 ^ 32 - b),
            mul-negative (b + 2 ^ 64 - 2 ^ 32) (2 ^ 32 - b) a (omega arith)
                (omega (arith, small_product (2 ^ 32 - b) a (omega arith) (omega arith))),
          ))
  ]
  | inr na ↦ elim (<-cases b (2 ^ 31)) [
    | inl pb ↦
        rw
          (sign_extend_32 a ha, sign_extend_32 b hb, ltb_of_≥ a (2 ^ 31) na, ltb_of_< b (2 ^ 31) pb)
          (mul-negative (a + 2 ^ 64 - 2 ^ 32) (2 ^ 32 - a) b (omega arith)
            (omega (arith, small_product (2 ^ 32 - a) b (omega arith) (omega arith))))
    | inr nb ↦
        rw
          (sign_extend_32 a ha, sign_extend_32 b hb, ltb_of_≥ a (2 ^ 31) na, ltb_of_≥ b (2 ^ 31) nb)
          (mul-negatives (a + 2 ^ 64 - 2 ^ 32) (2 ^ 32 - a) (b + 2 ^ 64 - 2 ^ 32) (2 ^ 32 - b)
            (omega arith) (omega arith)
            (small_product (2 ^ 32 - a) (2 ^ 32 - b) (omega arith) (omega arith)))
  ]
]

half_extended_product :
    (a b : ℕ)
    → a < 2 ^ 32
    → b < 2 ^ 32
    → sign_extend a 32 * b % 2 ^ 64 ≡ signed_product (ltb a (2 ^ 31)) true (magnitude32 a) b
half_extended_product a b ha hb = elim (<-cases a (2 ^ 31)) [
  | inl pa ↦
      rw (sign_extend_32 a ha, ltb_of_< a (2 ^ 31) pa)
        (omega (arith, small_product a b (omega arith) (omega arith)))
  | inr na ↦
      rw (sign_extend_32 a ha, ltb_of_≥ a (2 ^ 31) na)
        (mul-negative (a + 2 ^ 64 - 2 ^ 32) (2 ^ 32 - a) b (omega arith)
          (omega (arith, small_product (2 ^ 32 - a) b (omega arith) (omega arith))))
]

-- MULHU over MUL is the whole unsigned product.
mulhu_value_lem :
    (a b : ℕ) → a < 2 ^ 32 → b < 2 ^ 32 → mulhu_value a b * 2 ^ 32 + u32 (a * b) ≡ a * b
unfolding mulhu_value
mulhu_value_lem a b ha hb = omega (arith, square_bound a b ha hb)

-- MULH over MUL is the product of the two signed words, as a signed number of 64 bits: the product
-- of the magnitudes, negated where the signs differ.
pub mulh_value_lem :
    (a b : ℕ)
    → a < 2 ^ 32
    → b < 2 ^ 32
    → mulh_value a b * 2 ^ 32 + u32 (a * b)
      ≡ signed_product (ltb a (2 ^ 31)) (ltb b (2 ^ 31)) (magnitude32 a) (magnitude32 b)
unfolding mulh_value
mulh_value_lem a b ha hb =
    two_words (sign_extend a 32 * sign_extend b 32) (u32 (a * b))
      (low_words (sign_extend a 32) (sign_extend b 32) a b (extended_low a ha) (extended_low b hb))
    ∙ extended_product a b ha hb

-- MULHSU over MUL is the product of a signed and an unsigned word, as a signed number of 64 bits.
mulhsu_value_lem :
    (a b : ℕ)
    → a < 2 ^ 32
    → b < 2 ^ 32
    → mulhsu_value a b * 2 ^ 32 + u32 (a * b)
      ≡ signed_product (ltb a (2 ^ 31)) true (magnitude32 a) b
unfolding mulhsu_value
mulhsu_value_lem a b ha hb =
    two_words (sign_extend a 32 * b) (u32 (a * b))
      (low_words (sign_extend a 32) b a b (extended_low a ha) (omega arith))
    ∙ half_extended_product a b ha hb
