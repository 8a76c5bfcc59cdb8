-- ===== src/Common/Bits.antt =====
-- `&` and `|` at variables: the recursion on the lowest digit, and its consequences for masks,
-- shifted fields and single bits.
use Prim.Native.Nat.{
  ℕ, zero, suc, ◌+◌, ◌-◌, ◌*◌, ◌/◌, ◌%◌, ◌^◌, ◌≤◌, ◌<◌, min, max, bit_and, bit_or, digits,
  bit_and-bitwise, bit_or-bitwise,
}
use mathlib.Core.Path.{◌≡◌, refl, ap}
use native.Mathlib.Nat.{pow-suc, one-le-pow, div-div-eq-div-mul, mul_comm}
use native.Mathlib.Omega.{arith}

-- Fuel beyond the number itself changes nothing.
module _ (z : ℕ → ℕ) (f : ℕ → ℕ → ℕ) where
  digits_enough : (m n a b : ℕ) → a ≤ m → a ≤ n → digits z f m a b ≡ digits z f n a b
  digits_enough zero zero a b _ _ = refl
  digits_enough zero (suc n) zero b _ _ = refl
  digits_enough (suc m) zero zero b _ _ = refl
  digits_enough (suc m) (suc n) zero b _ _ = refl
  digits_enough zero (suc n) (suc a) b h _ = elim h [ ]
  digits_enough (suc m) zero (suc a) b _ h = elim h [ ]
  digits_enough (suc m) (suc n) (suc a) b h k =
      ap (λ (t : ℕ). t * 2 + f (suc a % 2) (b % 2))
        (digits_enough m n (suc a / 2) (b / 2) (omega arith) (omega arith))

  digits_low :
      (a b : ℕ)
      → digits z f (suc a) (suc a) b
        ≡ digits z f (suc a / 2) (suc a / 2) (b / 2) * 2 + f (suc a % 2) (b % 2)
  digits_low a b =
      ap (λ (t : ℕ). t * 2 + f (suc a % 2) (b % 2))
        (digits_enough a (suc a / 2) (suc a / 2) (b / 2) (omega arith) (omega arith))

pub bit_and_low : (a b : ℕ) → bit_and a b ≡ bit_and (a / 2) (b / 2) * 2 + min (a % 2) (b % 2)
bit_and_low zero b = simp bit_and-bitwise (omega arith)
bit_and_low (suc a) b = simp bit_and-bitwise (digits_low (λ _. zero) min a b)

pub bit_or_low : (a b : ℕ) → bit_or a b ≡ bit_or (a / 2) (b / 2) * 2 + max (a % 2) (b % 2)
bit_or_low zero b = simp bit_or-bitwise (omega arith)
bit_or_low (suc a) b = simp bit_or-bitwise (digits_low (λ y. y) max a b)

-- Addition counts each common bit twice.
or-add-and_upto : (n a b : ℕ) → a ≤ n → bit_or a b + bit_and a b ≡ a + b
or-add-and_upto n zero b h = omega (arith, bit_or-bitwise 0 b, bit_and-bitwise 0 b)
or-add-and_upto zero (suc a) b h = elim h [ ]
or-add-and_upto (suc n) (suc a) b h = omega (
  arith,
  bit_or_low (suc a) b,
  bit_and_low (suc a) b,
  or-add-and_upto n (suc a / 2) (b / 2) (omega arith),
)

pub or-add-and : (a b : ℕ) → bit_or a b + bit_and a b ≡ a + b
or-add-and a b = or-add-and_upto a a b (omega arith)

pub zero-and : (b : ℕ) → bit_and 0 b ≡ 0
zero-and b = bit_and-bitwise 0 b

pub zero-or : (b : ℕ) → bit_or 0 b ≡ b
zero-or b = bit_or-bitwise 0 b

and-zero_upto : (n a : ℕ) → a ≤ n → bit_and a 0 ≡ 0
and-zero_upto n zero h = zero-and 0
and-zero_upto zero (suc a) h = elim h [ ]
and-zero_upto (suc n) (suc a) h =
    omega (arith, bit_and_low (suc a) 0, and-zero_upto n (suc a / 2) (omega arith))

pub and-zero : (a : ℕ) → bit_and a 0 ≡ 0
and-zero a = and-zero_upto a a (omega arith)

pub or-zero : (a : ℕ) → bit_or a 0 ≡ a
or-zero a = omega (arith, or-add-and a 0, and-zero a)

-- A word above `k` low bits, and what is under it.
double : (q k : ℕ) → q * 2 ^ suc k ≡ q * 2 ^ k * 2
double q k = omega (arith, ap (λ (t : ℕ). q * t) (pow-suc 2 k))

-- `&` and `|` work on the upper and the lower part of a word by themselves.
pub and_split :
    (k q r m s : ℕ)
    → r < 2 ^ k
    → s < 2 ^ k
    → bit_and (q * 2 ^ k + r) (m * 2 ^ k + s) ≡ bit_and q m * 2 ^ k + bit_and r s
and_split zero q r m s hr hs = ground (arith, zero-and s)
and_split (suc k) q r m s hr hs = ground (
  arith,
  bit_and_low (q * 2 ^ suc k + r) (m * 2 ^ suc k + s),
  bit_and_low r s,
  double q k,
  double m k,
  double (bit_and q m) k,
  and_split k q (r / 2) m (s / 2) (omega (arith, pow-suc 2 k)) (omega (arith, pow-suc 2 k)),
)

pub or_split :
    (k q r m s : ℕ)
    → r < 2 ^ k
    → s < 2 ^ k
    → bit_or (q * 2 ^ k + r) (m * 2 ^ k + s) ≡ bit_or q m * 2 ^ k + bit_or r s
or_split zero q r m s hr hs = ground (arith, zero-or s)
or_split (suc k) q r m s hr hs = ground (
  arith,
  bit_or_low (q * 2 ^ suc k + r) (m * 2 ^ suc k + s),
  bit_or_low r s,
  double q k,
  double m k,
  double (bit_or q m) k,
  or_split k q (r / 2) m (s / 2) (omega (arith, pow-suc 2 k)) (omega (arith, pow-suc 2 k)),
)

-- `x << k | r` is a sum if `r` has at most `k` bits.
pub or_field : (k q r : ℕ) → r < 2 ^ k → bit_or (q * 2 ^ k) r ≡ q * 2 ^ k + r
or_field k q r h =
    ground (arith, or_split k q 0 0 r (one-le-pow k 2 (omega arith)) h, or-zero q, zero-or r)

pub and_ones_low : (k r : ℕ) → r < 2 ^ k → bit_and r (2 ^ k - 1) ≡ r
and_ones_low zero r h = ground (arith, zero-and 0)
and_ones_low (suc k) r h = ground (
  arith,
  bit_and_low r (2 ^ suc k - 1),
  pow-suc 2 k,
  one-le-pow k 2 (omega arith),
  and_ones_low k (r / 2) (omega (arith, pow-suc 2 k)),
)

-- A mask of `k` ones is the remainder by `2 ^ k`.
pub and_ones : (k a : ℕ) → bit_and a (2 ^ k - 1) ≡ a % 2 ^ k
and_ones k a = ground (
  arith,
  one-le-pow k 2 (omega arith),
  and_split k (a / 2 ^ k) (a % 2 ^ k) 0 (2 ^ k - 1),
  and-zero (a / 2 ^ k),
  and_ones_low k (a % 2 ^ k),
)

-- Single bits of `&` and `|`.
halve : (x i : ℕ) → x / 2 ^ suc i ≡ x / 2 / 2 ^ i
halve x i = ground (arith, div-div-eq-div-mul x 2 (2 ^ i), pow-suc 2 i, mul_comm 2 (2 ^ i))

pub bit-and : (i a b : ℕ) → bit_and a b / 2 ^ i % 2 ≡ min (a / 2 ^ i % 2) (b / 2 ^ i % 2)
bit-and zero a b = omega (arith, bit_and_low a b)
bit-and (suc i) a b =
    ground (
      arith,
      halve (bit_and a b) i,
      halve a i,
      halve b i,
      bit_and_low a b,
      bit-and i (a / 2) (b / 2),
    )

pub bit-or : (i a b : ℕ) → bit_or a b / 2 ^ i % 2 ≡ max (a / 2 ^ i % 2) (b / 2 ^ i % 2)
bit-or zero a b = omega (arith, bit_or_low a b)
bit-or (suc i) a b =
    ground
      (arith, halve (bit_or a b) i, halve a i, halve b i, bit_or_low a b, bit-or i (a / 2) (b / 2))

-- The bounds of `&` and `|`.
pub and-le_right_upto : (n a b : ℕ) → a ≤ n → bit_and a b ≤ b
and-le_right_upto n zero b h = omega (arith, zero-and b)
and-le_right_upto zero (suc a) b h = elim h [ ]
and-le_right_upto (suc n) (suc a) b h =
    omega (arith, bit_and_low (suc a) b, and-le_right_upto n (suc a / 2) (b / 2) (omega arith))

pub and-le_right : (a b : ℕ) → bit_and a b ≤ b
and-le_right a b = and-le_right_upto a a b (omega arith)

pub or-le-add : (a b : ℕ) → bit_or a b ≤ a + b
or-le-add a b = omega (arith, or-add-and a b)

-- A second mask by the same word changes nothing.
and_mask_twice_upto : (n a m : ℕ) → a ≤ n → bit_and (bit_and a m) m ≡ bit_and a m
and_mask_twice_upto n zero m h = rw (zero-and m) (zero-and m)
and_mask_twice_upto zero (suc a) m h = elim h [ ]
and_mask_twice_upto (suc n) (suc a) m h = ground (
  arith,
  bit_and_low (suc a) m,
  bit_and_low (bit_and (suc a) m) m,
  and_mask_twice_upto n (suc a / 2) (m / 2) (omega arith),
)

pub and_mask_twice : (a m : ℕ) → bit_and (bit_and a m) m ≡ bit_and a m
and_mask_twice a m = and_mask_twice_upto a a m (omega arith)

-- Two words below `2 ^ k` with the same bits are equal.
pub word_ext :
    (k a b : ℕ) → a < 2 ^ k → b < 2 ^ k → ((i : ℕ) → i < k → a / 2 ^ i % 2 ≡ b / 2 ^ i % 2) → a ≡ b
word_ext zero a b ha hb same = omega arith
word_ext (suc k) a b ha hb same =
    let top : a / 2 ≡ b / 2 =
      word_ext k (a / 2) (b / 2) (omega (arith, pow-suc 2 k)) (omega (arith, pow-suc 2 k))
        (λ i h. ground (arith, halve a i, halve b i, same (suc i) (omega arith))) in
    omega (arith, same 0 (omega arith))
