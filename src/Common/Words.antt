-- ===== src/Common/Words.antt =====
-- The machine words of the source: `unsigned int` and `unsigned long long` wrap at 2 ^ 32 and
-- 2 ^ 64, and an `int` or `long long` is the bit pattern that represents it.
use Prim.Native.Nat.{ℕ, ◌+◌, ◌-◌, ◌*◌, ◌/◌, ◌%◌, ◌^◌}
use mathlib.Core.Bool.{Bool}
use dimebox.Common.Compare.{ltb, if◌then◌else◌}

abbrev pub u8 : ℕ → ℕ
u8 n = n % 2 ^ 8

abbrev pub u32 : ℕ → ℕ
u32 n = n % 2 ^ 32

abbrev pub u64 : ℕ → ℕ
u64 n = n % 2 ^ 64

-- Shifts. A left shift is followed by the wrap of the type that it is made in.
infixl 75 ◌<<<◌ ◌>>>◌
abbrev pub ◌<<<◌ : ℕ → ℕ → ℕ
x <<< k = x * 2 ^ k

abbrev pub ◌>>>◌ : ℕ → ℕ → ℕ
x >>> k = x / 2 ^ k

-- Subtraction: the modulus is added first, since `-` on numbers stops at 0.
abbrev pub sub32 : ℕ → ℕ → ℕ
sub32 a b = (a + 2 ^ 32 - b % 2 ^ 32) % 2 ^ 32

abbrev pub sub64 : ℕ → ℕ → ℕ
sub64 a b = (a + 2 ^ 64 - b % 2 ^ 64) % 2 ^ 64

-- `~m` at 64 bits.
abbrev pub not64 : ℕ → ℕ
not64 m = 2 ^ 64 - 1 - m

-- `(long long) x` for an `int` x: the sign bit is copied upwards.
abbrev pub int_to_u64 : ℕ → ℕ
int_to_u64 w = if ltb w (2 ^ 31) then w else w + (2 ^ 64 - 2 ^ 32)

-- `(int) a < (int) b`: with the sign bit flipped the order is that of unsigned numbers.
abbrev pub slt32 : ℕ → ℕ → Bool
slt32 a b = ltb ((a + 2 ^ 31) % 2 ^ 32) ((b + 2 ^ 31) % 2 ^ 32)

-- The unsigned magnitude of an `int`, and the `int` of a sign and a magnitude.
abbrev pub magnitude32 : ℕ → ℕ
magnitude32 w = if ltb w (2 ^ 31) then w else 2 ^ 32 - w

-- Bit `i`, as 0 or 1.
abbrev pub bit : ℕ → ℕ → ℕ
bit w i = w / 2 ^ i % 2
