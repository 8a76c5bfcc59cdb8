-- ===== src/Debug/Values.antt =====
-- le4, le8, decoded_le4 and decoded_le8 (src/debug_server.C): numbers as text, the lowest byte first.
use dimebox.Common.{
  ℕ, zero, suc, Bool, true, false, ◌+◌, ◌*◌, ltb, leb, ◌<<<◌, ◌>>>◌, u32, bit_and, bit_or,
  if◌then◌else◌, Option, none, some, [], ◌++◌,
}
use dimebox.Rsp.Text.{Text, length, drop, hex2}
use dimebox.Rsp.Scan
use dimebox.Rsp.Scan.{scan_x}

-- The loop of le4 and le8, from byte `i` on.
unfoldable pub le_loop : ℕ → ℕ → ℕ → Text
unfolding hex2
le_loop zero i rv = []
le_loop (suc n) i rv = hex2 (bit_and (rv >>> (i * 8)) 0xff) ++ le_loop n (i + 1) rv

unfoldable pub le4 : ℕ → Text
unfolding le_loop
le4 rv = le_loop 4 0 (u32 rv)

unfoldable pub le8 : ℕ → Text
unfolding le_loop
le8 rv = le_loop 8 0 rv

-- The value so far, after byte `i`: a shift of an `unsigned int` by 32 or more is undefined.
unfoldable pub add_byte : ℕ → Bool × ℕ → Scan.Scan ℕ → Option (Bool × ℕ)
add_byte i (success, rv) (Scan.matched td rest) =
    if ltb (i * 8) 32 then some (success, bit_or rv (u32 (td <<< (i * 8)))) else none
add_byte i (success, rv) Scan.unmatched = some (false, rv)
add_byte i (success, rv) Scan.undefined = none

-- The loop of decoded_le4 and decoded_le8, from byte `i` on: whether all bytes were scanned, and the
-- value. A start behind the end of the text is undefined.
unfoldable pub decoded_loop : ℕ → ℕ → Text → Bool × ℕ → Option (Bool × ℕ)
unfolding add_byte scan_x
decoded_loop zero i encoded acc = some acc
decoded_loop (suc n) i encoded acc =
    if leb (i * 2) (length encoded)
    then elim (add_byte i acc (scan_x 32 2 (drop (i * 2) encoded))) [
      | none ↦ none
      | some next ↦ decoded_loop n (i + 1) encoded next
    ]
    else none

unfoldable pub decoded_le4 : Text → Option (Bool × ℕ)
unfolding decoded_loop
decoded_le4 encoded = decoded_loop 4 0 encoded (true, 0)

unfoldable pub decoded_le8 : Text → Option (Bool × ℕ)
unfolding decoded_loop
decoded_le8 encoded = decoded_loop 8 0 encoded (true, 0)
