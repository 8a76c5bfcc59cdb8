-- ===== src/Rsp/Packet.antt =====
-- Decode, Acknowledge and Encode (src/rsp.C): `$`, the data, `#` and two digits of a checksum.
use dimebox.Common.{
  ℕ, Bool, true, false, not, ◌&&◌, ◌+◌, ◌-◌, ◌%◌, ◌^◌, ltb, ◌==◌, if◌then◌else◌, bit_xor, none,
  some, [], ◌∷◌, ◌++◌,
}
use dimebox.Outcome.{Outcome, done, thrown, runtime_error, undefined}
use dimebox.Rsp.Text.{Text, length, take, drop, char_at, is_print, hex2}
use dimebox.Rsp.Scan
use dimebox.Rsp.Scan.{scan_x}

-- An acknowledgement in front of the packet is dropped.
unfoldable pub strip_front : Text → Text
strip_front [] = []
strip_front (c ∷ s) = if c == b'+' then s else c ∷ s

-- So is one at its end: the packet, and what stands behind it in the buffer.
unfoldable pub strip_back : Text → Text → Text × Text
strip_back [] beyond = ([], beyond)
strip_back (c ∷ []) beyond = if c == b'+' then ([], c ∷ beyond) else (c ∷ [], beyond)
strip_back (c ∷ d ∷ s) beyond =
    let (packet, after) = strip_back (d ∷ s) beyond in (c ∷ packet, after)

unfoldable pub all_print : Text → Bool
all_print [] = true
all_print (c ∷ s) = is_print c && all_print s

-- The loop over the data: the data so far and its checksum, and whether the last character was `}`.
unfoldable pub unescape : Bool → Text → Text → ℕ → Outcome (Text × ℕ)
unescape do_escape [] pdata checksum = done (pdata, checksum)
unescape true (c ∷ s) pdata checksum =
    let dc = bit_xor c 0x20 in unescape false s (pdata ++ dc ∷ []) ((checksum + dc) % 2 ^ 8)
unescape false (c ∷ s) pdata checksum =
    let escaped = unescape true s pdata checksum in
    let plain = unescape false s (pdata ++ c ∷ []) ((checksum + c) % 2 ^ 8) in
    if c == b'}' then escaped else if c == b'#' then runtime_error else plain

-- The data, if the scan of the checksum succeeds and gives what was observed. Messages of exceptions
-- are left out.
unfoldable pub check_sum : Outcome (Text × ℕ) → Scan.Scan ℕ → Outcome Text
check_sum (done (pdata, observed)) (Scan.matched expected rest) =
    if observed == expected then done pdata else runtime_error
check_sum (thrown e) (Scan.matched expected rest) = thrown e
check_sum runtime_error (Scan.matched expected rest) = runtime_error
check_sum undefined (Scan.matched expected rest) = undefined
check_sum data_read Scan.unmatched = runtime_error
check_sum data_read Scan.undefined = undefined

-- The data and the checksum of a packet of `size` characters.
unfoldable pub decode_data : ℕ → Text → Text → Outcome Text
unfolding unescape check_sum
decode_data size packet after =
    check_sum (unescape false (take (size - 4) (drop 1 packet)) [] 0)
      (scan_x 32 2 (drop (size - 2) packet ++ after))

abbrev pub is_at : Text → ℕ → ℕ → Bool
is_at packet i c = elim (char_at packet i) [ none ↦ false | some d ↦ d == c ]

-- A packet without acknowledgements, with what stands behind it in the buffer.
unfoldable pub decode_stripped : ℕ → Text → Text → Outcome Text
unfolding all_print decode_data
decode_stripped size packet after =
    if size == 0
    then done []
    else if ltb size 4
    then runtime_error
    else if not (is_at packet 0 b'$')
    then runtime_error
    else if not (is_at packet (size - 3) b'#')
    then runtime_error
    else if not (all_print packet)
    then runtime_error
    else decode_data size packet after

unfoldable pub decode_opened : Text × Text → Outcome Text
unfolding decode_stripped
decode_opened (packet, after) = decode_stripped (length packet) packet after

-- `beyond` is what the buffer holds behind the packet, up to its NUL.
unfoldable pub decode : Text → Text → Outcome Text
unfolding strip_front strip_back decode_opened
decode packet beyond =
    if length packet == 0
    then runtime_error
    else decode_opened (strip_back (strip_front packet) beyond)

unfoldable pub acknowledge : Text → Text
acknowledge packet_decoded = if ltb 0 (length packet_decoded) then b'+' ∷ [] else []

-- The sum of all characters, modulo 256.
unfoldable pub add_up : Text → ℕ → ℕ
add_up [] checksum = checksum
add_up (c ∷ s) checksum = add_up s ((checksum + c) % 2 ^ 8)

unfoldable pub encode : Text → Text
unfolding add_up hex2
encode src = b'$' ∷ (src ++ b'#' ∷ hex2 (add_up src 0))
