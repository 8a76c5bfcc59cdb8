-- ===== src/Rsp/Escape.antt =====
-- The data of a packet as the protocol escapes it, against the decoder (src/rsp.C).
use dimebox.Common.{
  ℕ, suc, Bool, true, false, not, ap, ◌≡◌, ◌<◌, refl, arith, ◌∙◌, ◌&&◌, ◌||◌, Bool-cases, inl, inr,
  ◌+◌, ◌*◌, ◌/◌, ◌%◌, ◌^◌, ◌==◌, if◌then◌else◌, bit_xor, [], ◌∷◌, ◌++◌, append_assoc, append-nil,
}
use dimebox.Outcome.{done, runtime_error}
use dimebox.Rsp.Text.{Text, hex2, is_print}
use dimebox.Rsp.Scan.{matched}
use dimebox.Rsp.Packet.{decode, all_print, unescape, check_sum, encode, add_up}
use dimebox.Rsp.PacketLaws.{acked, decode-acked}

-- The characters that stand for something in a packet: `}`, `#` and `$`.
abbrev is_special : ℕ → Bool
is_special c = (c == b'}') || ((c == b'#') || (c == b'$'))

-- Printable characters without `#` and `$`.
abbrev pub is_plain : Text → Bool
is_plain [] = true
is_plain (c ∷ s) = (is_print c && not ((c == b'#') || (c == b'$'))) && is_plain s

-- Printable characters without `#` and `}`.
abbrev is_bare : Text → Bool
is_bare [] = true
is_bare (c ∷ s) = (is_print c && not ((c == b'#') || (c == b'}'))) && is_bare s

-- What the protocol sends for the data.
abbrev pub escape : Text → Text
escape [] = []
escape (c ∷ s) = if is_special c then b'}' ∷ bit_xor c 0x20 ∷ escape s else c ∷ escape s

-- How often `}` is in the data.
abbrev escapes : Text → ℕ
escapes [] = 0
escapes (c ∷ s) = if c == b'}' then suc (escapes s) else escapes s

-- A packet of the data with the checksum `v`.
abbrev pub packet : Text → ℕ → Text
packet t v = b'$' ∷ (t ++ b'#' ∷ hex2 v)

-- The decoder takes the escape of `}`, but not those of `#` and `$`, which are not printable.
is_print-special : (c : ℕ) → is_special c ≡ true → is_print (bit_xor c 0x20) ≡ (c == b'}')
is_print-special c h = ground arith

all_print-escape : (s : Text) → all_print (escape s) ≡ is_plain s
unfolding all_print
all_print-escape [] = refl
all_print-escape (c ∷ s) = ground (arith, is_print-special c, all_print-escape s)

unescape-escape :
    (s pdata : Text) (sum : ℕ)
    → is_plain s ≡ true
    → unescape false (escape s) pdata sum ≡ done (pdata ++ s, add_up s sum)
unfolding unescape add_up
unescape-escape [] pdata sum h = rw append-nil refl
unescape-escape (c ∷ s) pdata sum h =
    ground (
      arith,
      unescape-escape s (pdata ++ c ∷ []) ((sum + c) % 2 ^ 8),
      append_assoc pdata (c ∷ []) s,
    )

-- The sum of the characters as a number.
abbrev total : Text → ℕ
total [] = 0
total (c ∷ s) = c + total s

add_up-total : (s : Text) (sum : ℕ) → sum < 2 ^ 8 → add_up s sum ≡ (sum + total s) % 2 ^ 8
unfolding add_up
add_up-total [] sum h = omega arith
add_up-total (c ∷ s) sum h = omega (arith, add_up-total s ((sum + c) % 2 ^ 8))

total-escape : (s : Text) → is_plain s ≡ true → total (escape s) ≡ total s + 93 * escapes s
total-escape [] h = omega arith
total-escape (c ∷ s) h = ground (arith, total-escape s)

-- Any data with the protocol's escapes of `}`, `#` and `$`, and any checksum: the decoder gives the
-- data back just when it is of printable characters other than `#` and `$` and the checksum is that
-- of the data before the escapes, and else it throws; acknowledgements in front and behind, and
-- what the buffer holds behind the packet, do not matter.
pub decode-escape :
    (front back : Bool) (s beyond : Text) (v : ℕ)
    → v < 2 ^ 8
    → decode (acked front back (packet (escape s) v)) beyond
      ≡ (if is_plain s && (add_up s 0 == v) then done s else runtime_error)
unfolding hex2 check_sum
decode-escape front back s beyond v small =
    let whole : v / 16 * 16 + v % 16 ≡ v = omega arith in
    decode-acked front back (escape s) beyond (v / 16) (v % 16) (omega arith) (omega arith)
    ∙ ap
        (λ (b : Bool).
          if b
          then check_sum (unescape false (escape s) [] 0) (matched (v / 16 * 16 + v % 16) [])
          else runtime_error)
        (all_print-escape s)
    ∙ elim (Bool-cases (is_plain s)) [
      | inl h ↦ rw (h, unescape-escape s [] 0 h, whole) refl
      | inr h ↦ rw h refl
    ]

-- What the protocol sends: the checksum is that of the characters on the wire, the escapes included.
abbrev pub sent : Text → Text
sent s = packet (escape s) (add_up (escape s) 0)

-- What the protocol sends for any data is decoded where the data is of printable characters other
-- than `#` and `$` and how often `}` is in it is a multiple of 256, so where there is none, and
-- refused elsewhere, so wherever `#` or `$` is escaped and where there are 1 to 255 escapes.
pub decode-sent :
    (s beyond : Text)
    → decode (sent s) beyond
      ≡ (if is_plain s && (escapes s % 2 ^ 8 == 0) then done s else runtime_error)
decode-sent s beyond =
    let wire = add_up-total (escape s) 0 (omega arith) in
    let plain = add_up-total s 0 (omega arith) in
    decode-escape false false s beyond (add_up (escape s) 0) (omega (arith, wire))
    ∙ elim (Bool-cases (is_plain s)) [
      | inl h ↦ ground (arith, wire, plain, total-escape s h)
      | inr h ↦ rw h refl
    ]

all_print-bare : (s : Text) → is_bare s ≡ true → all_print s ≡ true
unfolding all_print
all_print-bare [] h = refl
all_print-bare (c ∷ s) h = ground (arith, all_print-bare s)

unescape-bare :
    (s pdata : Text) (sum : ℕ)
    → is_bare s ≡ true
    → unescape false s pdata sum ≡ done (pdata ++ s, add_up s sum)
unfolding unescape add_up
unescape-bare [] pdata sum h = rw append-nil refl
unescape-bare (c ∷ s) pdata sum h =
    ground
      (arith, unescape-bare s (pdata ++ c ∷ []) ((sum + c) % 2 ^ 8), append_assoc pdata (c ∷ []) s)

-- What the server encodes is decoded, if it holds printable characters other than `#` and `}`.
pub decode-encode :
    (front back : Bool) (s beyond : Text)
    → is_bare s ≡ true
    → decode (acked front back (encode s)) beyond ≡ done s
unfolding encode hex2 check_sum
decode-encode front back s beyond h =
    let v = add_up s 0 in
    let small : v < 2 ^ 8 = omega (arith, add_up-total s 0) in
    let whole : v / 16 * 16 + v % 16 ≡ v = omega arith in
    decode-acked front back s beyond (v / 16) (v % 16) (omega arith) (omega arith)
    ∙ rw (all_print-bare s h, unescape-bare s [] 0 h, whole) (ground arith)
