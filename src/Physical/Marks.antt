-- ===== src/Physical/Marks.antt =====
-- The marks of free bytes, bit by bit.
use dimebox.Common.{
  ℕ, zero, suc, Bool, true, false, ◌+◌, ◌-◌, ◌*◌, ◌/◌, ◌%◌, ◌^◌, ◌<◌, ◌≡◌, refl, sym, ap, arith,
  ◌∙◌, bit_and, ◌==◌, ◌!=◌, ◌<<<◌, not64, if◌then◌else◌, Bool-cases, eq_of_==, inl, inr, and_split,
  and-zero, and_ones, bit-and,
}
use native.Mathlib.Nat.{
  pow-suc, one-le-pow, div-div-eq-div-mul, mul_comm, div-add-mod', mod-lt, pow-le-pow_right,
  div-eq_of_lt,
}
use dimebox.Physical.Block.{MemBlock, byte_is_free, write_byte}

halve : (x i : ℕ) → x / 2 ^ suc i ≡ x / 2 / 2 ^ i
halve x i = ground (arith, div-div-eq-div-mul x 2 (2 ^ i), pow-suc 2 i, mul_comm 2 (2 ^ i))

power_bit : (i j : ℕ) → 2 ^ i / 2 ^ j % 2 ≡ (if i == j then 1 else 0)
power_bit zero zero = refl
power_bit zero (suc j) = ground (arith, halve 1 j)
power_bit (suc i) zero = ground (arith, pow-suc 2 i)
power_bit (suc i) (suc j) = ground (arith, halve (2 ^ suc i) j, pow-suc 2 i, power_bit i j)

complement_bit : (k w j : ℕ) → w < 2 ^ k → j < k → (2 ^ k - 1 - w) / 2 ^ j % 2 ≡ 1 - w / 2 ^ j % 2
complement_bit zero w j h below = elim below [ ]
complement_bit (suc k) w zero h below = ground (arith, pow-suc 2 k)
complement_bit (suc k) w (suc j) h below =
    ground (arith, pow-suc 2 k, halve (2 ^ suc k - 1 - w) j, halve w j, complement_bit k (w / 2) j)

-- The mark of byte `i`.
single_bit : (f i : ℕ) → bit_and f (2 ^ i) ≡ f / 2 ^ i % 2 * 2 ^ i
single_bit f i =
    let whole : f / 2 ^ i * 2 ^ i + f % 2 ^ i ≡ f = div-add-mod' f (2 ^ i) in
    let one : 1 * 2 ^ i + 0 ≡ 2 ^ i = omega arith in
    ap (λ (t : ℕ). bit_and t (2 ^ i)) (sym whole)
    ∙ ap (bit_and (f / 2 ^ i * 2 ^ i + f % 2 ^ i)) (sym one)
    ∙ and_split i (f / 2 ^ i) (f % 2 ^ i) 1 0 (mod-lt f (one-le-pow i 2 (omega arith)))
        (one-le-pow i 2 (omega arith))
    ∙ ground (arith, and_ones 1 (f / 2 ^ i), and-zero (f % 2 ^ i))

the_power : (i : ℕ) → 1 <<< i ≡ 2 ^ i
the_power i = omega arith

power_lt : (i : ℕ) → i < 64 → 2 ^ i < 2 ^ 64
power_lt i h = omega (arith, pow-le-pow_right {n = 2} (omega arith) {i = i} {j = 63} (omega arith))

-- A mark is set as its bit is.
is_marked : (f i : ℕ) → (bit_and f (1 <<< i) != 0) ≡ (f / 2 ^ i % 2 == 1)
is_marked f i =
    let word : bit_and f (1 <<< i) ≡ f / 2 ^ i % 2 * 2 ^ i =
      ap (bit_and f) (the_power i) ∙ single_bit f i in
    elim (Bool-cases (f / 2 ^ i % 2 == 1)) [
      | inl set ↦
          let one : f / 2 ^ i % 2 ≡ 1 = eq_of_== (f / 2 ^ i % 2) 1 set in
          rw (word, one) (ground (arith, one-le-pow i 2 (omega arith)))
      | inr clear ↦
          let nought : f / 2 ^ i % 2 ≡ 0 = ground arith in rw (word, nought) (ground arith)
    ]

byte_is_free_lem : (i : ℕ) (b : MemBlock) → byte_is_free i b ≡ (b.free_bytes / 2 ^ i % 2 == 1)
unfolding byte_is_free
byte_is_free_lem i b = is_marked b.free_bytes i

cleared_bit :
    (f i j : ℕ)
    → i < 64
    → j < 64
    → bit_and f (not64 (1 <<< i)) / 2 ^ j % 2 ≡ (if j == i then 0 else f / 2 ^ j % 2)
cleared_bit f i j hi hj = ground (
  arith,
  bit-and j f (not64 (1 <<< i)),
  complement_bit 64 (1 <<< i) j (omega (arith, the_power i, power_lt i hi)) hj,
  power_bit i j,
  ap (λ (t : ℕ). t / 2 ^ j % 2) (the_power i),
)

-- A byte that is written is no longer free, and the others are as they were.
pub byte_is_free-write_byte :
    (i j v : ℕ) (initial : Bool) (b : MemBlock)
    → i < 64
    → j < 64
    → byte_is_free j (write_byte i v initial b) ≡ (if j == i then false else byte_is_free j b)
unfolding write_byte
byte_is_free-write_byte i j v initial b hi hj =
    let marks = byte_is_free_lem j (write_byte i v initial b) in
    ground (arith, marks, byte_is_free_lem j b, cleared_bit b.free_bytes i j hi hj)

-- Every byte of a block that has just been allocated is free.
pub byte_is_free-fresh :
    (j : ℕ) (b : MemBlock) → j < 64 → b.free_bytes ≡ 2 ^ 64 - 1 → byte_is_free j b ≡ true
byte_is_free-fresh j b h all =
    byte_is_free_lem j b
    ∙ rw all (
        ground (
          arith,
          complement_bit 64 0 j (omega arith) h,
          div-eq_of_lt {n = 0} {m = 2 ^ j} (one-le-pow j 2 (omega arith)),
        ))
