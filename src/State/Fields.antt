-- ===== src/State/Fields.antt =====
-- The fields of MSTATUS that a trap uses, under the masks and the merges of the source.
use dimebox.Common.{
  ℕ, Bool, ◌||◌, ◌+◌, ◌*◌, ◌/◌, ◌%◌, ◌^◌, ◌≡◌, min, max, bit_and, bit_or, ◌==◌, not64,
  if◌then◌else◌, arith, bit-and, bit-or, and_split, and-zero, and_ones,
}
use dimebox.State.{RiscvState, mstatus, legal_mstatus, mstatus_writable}

abbrev pub mie_bit : ℕ → ℕ
mie_bit w = w / 2 ^ 3 % 2

abbrev pub mpie_bit : ℕ → ℕ
mpie_bit w = w / 2 ^ 7 % 2

abbrev pub mpp : ℕ → ℕ
mpp w = w / 2 ^ 11 % 4

pub and-mpp_mask : (a : ℕ) → bit_and a 0x1800 ≡ mpp a * 2048
and-mpp_mask a = ground (
  arith,
  and_split 11 (a / 2048) (a % 2048) 3 0 (omega arith) (omega arith),
  and-zero (a % 2048),
  and_ones 2 (a / 2048),
)

-- What the four bits become under `&` and `|`.
pub mie_bit-and : (a m : ℕ) → mie_bit (bit_and a m) ≡ min (mie_bit a) (mie_bit m)
mie_bit-and a m = bit-and 3 a m

pub mpie_bit-and : (a m : ℕ) → mpie_bit (bit_and a m) ≡ min (mpie_bit a) (mpie_bit m)
mpie_bit-and a m = bit-and 7 a m

pub mpp-and :
    (a m : ℕ)
    → mpp (bit_and a m)
      ≡ min (a / 2 ^ 11 % 2) (m / 2 ^ 11 % 2) + 2 * min (a / 2 ^ 12 % 2) (m / 2 ^ 12 % 2)
mpp-and a m = omega (arith, bit-and 11 a m, bit-and 12 a m)

pub mpp-or :
    (a m : ℕ)
    → mpp (bit_or a m)
      ≡ max (a / 2 ^ 11 % 2) (m / 2 ^ 11 % 2) + 2 * max (a / 2 ^ 12 % 2) (m / 2 ^ 12 % 2)
mpp-or a m = omega (arith, bit-or 11 a m, bit-or 12 a m)

-- The written word after the reserved bits are cleared.
unfoldable pub masked : ℕ → ℕ
masked v = bit_and v (bit_and v mstatus_writable)

masked-mie_bit : (v : ℕ) → mie_bit (masked v) ≡ mie_bit v
unfolding masked
masked-mie_bit v =
    omega (arith, bit-and 3 v (bit_and v mstatus_writable), bit-and 3 v mstatus_writable)

masked-mpie_bit : (v : ℕ) → mpie_bit (masked v) ≡ mpie_bit v
unfolding masked
masked-mpie_bit v =
    omega (arith, bit-and 7 v (bit_and v mstatus_writable), bit-and 7 v mstatus_writable)

pub masked-mpp : (v : ℕ) → mpp (masked v) ≡ mpp v
unfolding masked
masked-mpp v = omega (
  arith,
  mpp-and v (bit_and v mstatus_writable),
  bit-and 11 v mstatus_writable,
  bit-and 12 v mstatus_writable,
)

-- The word when MPP keeps its old value.
unfoldable pub kept : ℕ → ℕ → ℕ
kept old rval = bit_or (bit_and rval (not64 0x1800)) (bit_and old 0x1800)

kept-mie_bit : (old r : ℕ) → mie_bit (kept old r) ≡ mie_bit r
unfolding kept
kept-mie_bit old r = omega (
  arith,
  bit-or 3 (bit_and r (not64 0x1800)) (bit_and old 0x1800),
  bit-and 3 r (not64 0x1800),
  bit-and 3 old 0x1800,
)

kept-mpie_bit : (old r : ℕ) → mpie_bit (kept old r) ≡ mpie_bit r
unfolding kept
kept-mpie_bit old r = omega (
  arith,
  bit-or 7 (bit_and r (not64 0x1800)) (bit_and old 0x1800),
  bit-and 7 r (not64 0x1800),
  bit-and 7 old 0x1800,
)

kept-mpp : (old r : ℕ) → mpp (kept old r) ≡ mpp old
unfolding kept
kept-mpp old r = omega (
  arith,
  mpp-or (bit_and r (not64 0x1800)) (bit_and old 0x1800),
  bit-and 11 r (not64 0x1800),
  bit-and 12 r (not64 0x1800),
  bit-and 11 old 0x1800,
  bit-and 12 old 0x1800,
)

abbrev pub is_reserved_mpp : ℕ → Bool
is_reserved_mpp w = (mpp w == 1) || (mpp w == 2)

pub legal_mstatus_lem :
    (old v : ℕ)
    → legal_mstatus old v ≡ (if is_reserved_mpp (masked v) then kept old (masked v) else masked v)
unfolding legal_mstatus masked kept
legal_mstatus_lem old v = ground (arith, and-mpp_mask (bit_and v (bit_and v mstatus_writable)))

-- A write to MSTATUS keeps MIE and MPIE as they are given, and MPP unless it is a reserved value,
-- where the old MPP stays.
pub legal_mstatus_fields :
    (old v : ℕ)
    → (mie_bit (legal_mstatus old v) ≡ mie_bit v)
      × (mpie_bit (legal_mstatus old v) ≡ mpie_bit v)
      × (mpp (legal_mstatus old v) ≡ (if is_reserved_mpp v then mpp old else mpp v))
legal_mstatus_fields old v = rw legal_mstatus_lem (
    ground (
      arith,
      masked-mie_bit v,
      masked-mpie_bit v,
      masked-mpp v,
      kept-mie_bit old (masked v),
      kept-mpie_bit old (masked v),
      kept-mpp old (masked v),
    ))

-- The read mask of MSTATUS hides none of the four bits.
pub mstatus_fields :
    (s : RiscvState)
    → (mie_bit (mstatus s) ≡ mie_bit s.mstatus_reg)
      × (mpie_bit (mstatus s) ≡ mpie_bit s.mstatus_reg)
      × (mpp (mstatus s) ≡ mpp s.mstatus_reg)
unfolding mstatus
mstatus_fields s = omega (
  arith,
  bit-and 3 s.mstatus_reg 0x807fffff,
  bit-and 7 s.mstatus_reg 0x807fffff,
  bit-and 11 s.mstatus_reg 0x807fffff,
  bit-and 12 s.mstatus_reg 0x807fffff,
)
