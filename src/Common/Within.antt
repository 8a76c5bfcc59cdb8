-- ===== src/Common/Within.antt =====
-- Words all of whose bits are set in a mask.
use Prim.Native.Nat.{ℕ, zero, suc, ◌/◌, ◌%◌, ◌≤◌, min, bit_and, bit_or}
use mathlib.Core.Path.{◌≡◌, ◌∙◌, ap}
use native.Mathlib.Omega.{arith}
use dimebox.Common.Bits.{bit_and_low, bit_or_low, zero-and, zero-or, and_mask_twice}

abbrev pub IsWithin : ℕ → ℕ → Type 0
IsWithin a m = bit_and a m ≡ a

-- The condition on the word without its lowest bit, and on that bit.
IsWithin-halve : (a m : ℕ) → IsWithin a m → IsWithin (a / 2) (m / 2) × (min (a % 2) (m % 2) ≡ a % 2)
IsWithin-halve a m h = omega (arith, bit_and_low a m)

IsWithin-join : (a m : ℕ) → IsWithin (a / 2) (m / 2) → min (a % 2) (m % 2) ≡ a % 2 → IsWithin a m
IsWithin-join a m h k = omega (arith, bit_and_low a m)

and-IsWithin_upto : (n a b m : ℕ) → a ≤ n → IsWithin a m → IsWithin (bit_and a b) m
and-IsWithin_upto n zero b m _ h = rw (zero-and b) h
and-IsWithin_upto zero (suc a) b m le h = elim le [ ]
and-IsWithin_upto (suc n) (suc a) b m le h = ground (
  arith,
  IsWithin-halve (suc a) m h,
  bit_and_low (suc a) b,
  IsWithin-join (bit_and (suc a) b) m,
  and-IsWithin_upto n (suc a / 2) (b / 2) (m / 2) (omega arith),
)

pub and-IsWithin : (a b m : ℕ) → IsWithin a m → IsWithin (bit_and a b) m
and-IsWithin a b m h = and-IsWithin_upto a a b m (omega arith) h

and-IsWithin_right_upto : (n a b m : ℕ) → a ≤ n → IsWithin b m → IsWithin (bit_and a b) m
and-IsWithin_right_upto n zero b m _ h = rw (zero-and b) (zero-and m)
and-IsWithin_right_upto zero (suc a) b m le h = elim le [ ]
and-IsWithin_right_upto (suc n) (suc a) b m le h = ground (
  arith,
  IsWithin-halve b m h,
  bit_and_low (suc a) b,
  IsWithin-join (bit_and (suc a) b) m,
  and-IsWithin_right_upto n (suc a / 2) (b / 2) (m / 2) (omega arith),
)

pub and-IsWithin_right : (a b m : ℕ) → IsWithin b m → IsWithin (bit_and a b) m
and-IsWithin_right a b m h = and-IsWithin_right_upto a a b m (omega arith) h

or-IsWithin_upto : (n a b m : ℕ) → a ≤ n → IsWithin a m → IsWithin b m → IsWithin (bit_or a b) m
or-IsWithin_upto n zero b m _ h k = rw (zero-or b) k
or-IsWithin_upto zero (suc a) b m le h k = elim le [ ]
or-IsWithin_upto (suc n) (suc a) b m le h k = ground (
  arith,
  IsWithin-halve (suc a) m h,
  IsWithin-halve b m k,
  bit_or_low (suc a) b,
  IsWithin-join (bit_or (suc a) b) m,
  or-IsWithin_upto n (suc a / 2) (b / 2) (m / 2) (omega arith),
)

pub or-IsWithin : (a b m : ℕ) → IsWithin a m → IsWithin b m → IsWithin (bit_or a b) m
or-IsWithin a b m h k = or-IsWithin_upto a a b m (omega arith) h k

and_self_upto : (n a : ℕ) → a ≤ n → bit_and a a ≡ a
and_self_upto n zero h = zero-and 0
and_self_upto zero (suc a) h = elim h [ ]
and_self_upto (suc n) (suc a) h =
    omega (arith, bit_and_low (suc a) (suc a), and_self_upto n (suc a / 2) (omega arith))

pub and_self : (a : ℕ) → bit_and a a ≡ a
and_self a = and_self_upto a a (omega arith)

-- `v & (v & m)`, as the source clears bits, is a word within `m`, and is `v` if that is within `m`.
pub clear-IsWithin : (v m : ℕ) → IsWithin (bit_and v (bit_and v m)) m
clear-IsWithin v m = and-IsWithin_right v (bit_and v m) m (and_mask_twice v m)

pub clear_within : (v m : ℕ) → IsWithin v m → bit_and v (bit_and v m) ≡ v
clear_within v m h = ap (bit_and v) h ∙ and_self v
