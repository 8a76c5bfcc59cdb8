-- ===== src/Instruction/SignExtend.antt =====
-- SignExtend of RiscvInstruction (include/riscv_instruction.h) as two's complement.
use dimebox.Common.{
  ℕ, zero, suc, true, false, ◌+◌, ◌-◌, ◌*◌, ◌/◌, ◌^◌, ◌<◌, ◌≤◌, ◌≡◌, refl, ap, arith, ◌∙◌, bit_and,
  bit_or, ◌>>>◌, ◌<<<◌, ◌==◌, ltb, inl, inr, <-cases, ltb_of_<, ltb_of_≥, if◌then◌else◌, or_split,
  zero-or, or-zero,
}
use native.Mathlib.Nat.{pow-suc, one-le-pow, div-eq_of_lt, div-eq_of_lt-le}
use dimebox.Instruction.Machine.{fill_ones, sign_extend}

-- `1 << i` over a word without the bits from `i` on, and over one that has bit `i` already.
set_bit : (i op : ℕ) → op < 2 ^ i → bit_or op (1 <<< i) ≡ op + 2 ^ i
set_bit i op h =
    ground (arith, or_split i 0 op 1 0 h (one-le-pow i 2 (omega arith)), zero-or 1, or-zero op)

set_bit_again : (i r : ℕ) → r < 2 ^ i → bit_or (2 ^ i + r) (1 <<< i) ≡ 2 ^ i + r
set_bit_again i r h = ground (arith, or_split i 1 r 1 0 h (one-le-pow i 2 (omega arith)), or-zero r)

-- The loop sets every bit from `i` on.
fill_ones_lem : (n i op : ℕ) → op < 2 ^ i → fill_ones n i op + 2 ^ i ≡ op + 2 ^ (i + n)
unfolding fill_ones
fill_ones_lem zero i op h = ap (λ (t : ℕ). op + 2 ^ t) (omega arith)
fill_ones_lem (suc n) i op h =
    let exponent : i + 1 + n ≡ i + suc n = omega arith in
    let next : 2 ^ (i + 1) ≡ 2 ^ i * 2 = ap (λ (t : ℕ). 2 ^ t) (omega arith) ∙ pow-suc 2 i in
    ground (
      arith,
      ap (λ (t : ℕ). fill_ones n (i + 1) t) (set_bit i op h),
      fill_ones_lem n (i + 1) (op + 2 ^ i) (omega arith),
      ap (λ (t : ℕ). 2 ^ t) exponent,
    )

quotient_one : (k op : ℕ) → 2 ^ k ≤ op → op < 2 ^ suc k → op / 2 ^ k ≡ 1
quotient_one k op low high = div-eq_of_lt-le (2 ^ k) (omega arith) (omega (arith, pow-suc 2 k))

-- The sign bit of a word of `k + 1` bits.
sign_set : (k op : ℕ) → 2 ^ k ≤ op → op < 2 ^ suc k → (bit_and (op >>> k) 1 == 1) ≡ true
sign_set k op low high = rw (quotient_one k op low high) refl

sign_clear : (k op : ℕ) → op < 2 ^ k → (bit_and (op >>> k) 1 == 1) ≡ false
sign_clear k op h = rw (div-eq_of_lt h) refl

-- The loop on a word that has its sign bit.
fill_from_sign :
    (k n op : ℕ)
    → 2 ^ k ≤ op
    → op < 2 ^ suc k
    → fill_ones (suc n) k op + 2 ^ suc k ≡ op + 2 ^ (suc k + n)
unfolding fill_ones
fill_from_sign k n op low high =
    let again : bit_or op (1 <<< k) ≡ op =
      ground (arith, set_bit_again k (op - 2 ^ k) (omega (arith, pow-suc 2 k))) in
    let next : k + 1 ≡ suc k = omega arith in rw (again, next) (fill_ones_lem n (suc k) op high)

-- SignExtend is the reading of a word of `k + 1` bits as a signed number, at 64 bits.
pub sign_extend_lem :
    (k op : ℕ)
    → k < 64
    → op < 2 ^ suc k
    → sign_extend op (suc k) ≡ (if ltb op (2 ^ k) then op else op + 2 ^ 64 - 2 ^ suc k)
unfolding sign_extend
sign_extend_lem k op small h =
    let width : suc k - 1 ≡ k = omega arith in
    elim (<-cases op (2 ^ k)) [
      | inl below ↦ rw (width, sign_clear k op below, ltb_of_< op (2 ^ k) below) refl
      | inr above ↦
          let rounds : 64 - k ≡ suc (63 - k) = omega arith in
          let all_bits : suc k + (63 - k) ≡ 64 = omega arith in
          let filled = fill_from_sign k (63 - k) op above h in
          rw (width, sign_set k op above h, ltb_of_≥ op (2 ^ k) above, rounds)
            (omega (arith, filled, ap (λ (t : ℕ). 2 ^ t) all_bits))
    ]
