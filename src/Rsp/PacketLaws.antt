-- ===== src/Rsp/PacketLaws.antt =====
-- Packets as their decoder reads them (src/rsp.C).
use dimebox.Common.{
  ℕ, suc, Bool, true, false, ap, sym, ◌≡◌, ◌≢◌, ◌<◌, refl, arith, ◌∙◌, ◌&&◌, ◌+◌, ◌-◌, ◌*◌,
  if◌then◌else◌, some, [], ◌∷◌, ◌++◌, append_assoc,
}
use dimebox.Outcome.{Outcome, done, runtime_error}
use dimebox.Rsp.Text.{Text, length, take, drop, char_at, hex_digit, digit_value}
use dimebox.Rsp.Scan.{matched, scan_x, scan_signed, scan_hex, scan_number, scan_digits, skip_space}
use dimebox.Rsp.Packet.{
  decode_opened, decode, decode_stripped, decode_data, is_at, strip_front, strip_back, all_print,
  unescape, check_sum,
}

pub digit_value-hex_digit : (d : ℕ) → d < 16 → digit_value 16 (hex_digit d) ≡ some d
unfolding digit_value hex_digit
digit_value-hex_digit d h = ground arith

pub scan_x-digits :
    (d e : ℕ) (s : Text)
    → d < 16
    → e < 16
    → scan_x 32 2 (hex_digit d ∷ hex_digit e ∷ s) ≡ matched (d * 16 + e) s
unfolding scan_x skip_space scan_signed scan_hex scan_number scan_digits hex_digit digit_value
scan_x-digits d e s hd he = ground arith

strip_back-last :
    (s beyond : Text) (c : ℕ) → c ≢ b'+' → strip_back (s ++ c ∷ []) beyond ≡ (s ++ c ∷ [], beyond)
unfolding strip_back
strip_back-last [] beyond c h = ground arith
strip_back-last (a ∷ []) beyond c h = ground arith
strip_back-last (a ∷ b ∷ s) beyond c h = rw (strip_back-last (b ∷ s) beyond c h) refl

length-append : (s t : Text) → length (s ++ t) ≡ length s + length t
length-append [] t = omega arith
length-append (c ∷ s) t = omega (arith, length-append s t)

char_at-append : (s t : Text) (c : ℕ) → char_at (s ++ c ∷ t) (length s) ≡ some c
char_at-append [] t c = refl
char_at-append (d ∷ s) t c = char_at-append s t c

drop-append : (s t : Text) (c : ℕ) → drop (suc (length s)) (s ++ c ∷ t) ≡ t
drop-append [] t c = refl
drop-append (d ∷ s) t c = drop-append s t c

take-append : (s t : Text) → take (length s) (s ++ t) ≡ s
take-append [] t = refl
take-append (c ∷ s) t = ap (λ (u : Text). c ∷ u) (take-append s t)

all_print-append : (s t : Text) → all_print (s ++ t) ≡ (all_print s && all_print t)
unfolding all_print
all_print-append [] t = refl
all_print-append (c ∷ s) t = ground (arith, all_print-append s t)

-- A packet with the two digits of a checksum.
abbrev pub frame : Text → ℕ → ℕ → Text
frame t d e = b'$' ∷ (t ++ b'#' ∷ hex_digit d ∷ hex_digit e ∷ [])

-- What the decoder makes of the data `t` and a checksum.
abbrev outcome : Text → ℕ → Outcome Text
outcome t v =
    if all_print t then check_sum (unescape false t [] 0) (matched v []) else runtime_error

decode_data-frame :
    (t after : Text) (d e : ℕ)
    → d < 16
    → e < 16
    → decode_data (suc (suc (suc (suc (length t))))) (frame t d e) after
      ≡ check_sum (unescape false t [] 0) (matched (d * 16 + e) after)
unfolding decode_data
decode_data-frame t after d e hd he =
    let digits = hex_digit d ∷ hex_digit e ∷ [] in
    let at_digits : suc (suc (suc (suc (length t)))) - 2 ≡ suc (suc (length t)) = omega arith in
    let to_end : suc (suc (suc (suc (length t)))) - 4 ≡ length t = omega arith in
    let pdata : take (suc (suc (suc (suc (length t)))) - 4) (t ++ b'#' ∷ digits) ≡ t =
      ap (λ (k : ℕ). take k (t ++ b'#' ∷ digits)) to_end ∙ take-append t (b'#' ∷ digits) in
    let tail : drop (suc (suc (suc (suc (length t)))) - 2) (frame t d e) ≡ digits =
      ap (λ (k : ℕ). drop k (frame t d e)) at_digits ∙ drop-append t digits b'#' in
    ap
      (λ (u : Text).
        check_sum (unescape false u [] 0)
          (scan_x 32 2 (drop (suc (suc (suc (suc (length t)))) - 2) (frame t d e) ++ after)))
      pdata
    ∙ ap (λ (u : Text). check_sum (unescape false t [] 0) (scan_x 32 2 (u ++ after))) tail
    ∙ ap (check_sum (unescape false t [] 0)) (scan_x-digits d e after hd he)

length-frame : (t : Text) (d e : ℕ) → length (frame t d e) ≡ suc (suc (suc (suc (length t))))
length-frame t d e = omega (arith, length-append t (b'#' ∷ hex_digit d ∷ hex_digit e ∷ []))

is_at-frame :
    (t : Text) (d e : ℕ) → is_at (frame t d e) (suc (suc (suc (suc (length t)))) - 3) b'#' ≡ true
is_at-frame t d e =
    let at_mark : suc (suc (suc (suc (length t)))) - 3 ≡ suc (length t) = omega arith in
    ap (λ (k : ℕ). is_at (frame t d e) k b'#') at_mark
    ∙ rw (is_at, char_at-append t (hex_digit d ∷ hex_digit e ∷ []) b'#') refl

all_print-frame : (t : Text) (d e : ℕ) → d < 16 → e < 16 → all_print (frame t d e) ≡ all_print t
unfolding all_print hex_digit
all_print-frame t d e hd he =
    ground (arith, all_print-append t (b'#' ∷ hex_digit d ∷ hex_digit e ∷ []))

decode_stripped-frame :
    (t after : Text) (d e : ℕ)
    → d < 16
    → e < 16
    → decode_stripped (length (frame t d e)) (frame t d e) after ≡ (
        if all_print t
        then check_sum (unescape false t [] 0) (matched (d * 16 + e) after)
        else runtime_error)
unfolding decode_stripped
decode_stripped-frame t after d e hd he =
    ap (λ (k : ℕ). decode_stripped k (frame t d e) after) (length-frame t d e)
    ∙ ground
        (arith, is_at-frame t d e, all_print-frame t d e hd he, decode_data-frame t after d e hd he)

-- Acknowledgements that may stand in front of a packet and behind it.
abbrev pub acked : Bool → Bool → Text → Text
acked front back packet =
    if front
    then b'+' ∷ (if back then packet ++ b'+' ∷ [] else packet)
    else if back
    then packet ++ b'+' ∷ []
    else packet

strip_back-plus : (s beyond : Text) → strip_back (s ++ b'+' ∷ []) beyond ≡ (s, b'+' ∷ beyond)
unfolding strip_back
strip_back-plus [] beyond = refl
strip_back-plus (a ∷ []) beyond = refl
strip_back-plus (a ∷ b ∷ s) beyond = rw (strip_back-plus (b ∷ s) beyond) refl

strip_back-frame :
    (t beyond : Text) (d e : ℕ) → e < 16 → strip_back (frame t d e) beyond ≡ (frame t d e, beyond)
unfolding hex_digit
strip_back-frame t beyond d e h =
    let last =
      strip_back-last (b'$' ∷ (t ++ b'#' ∷ hex_digit d ∷ [])) beyond (hex_digit e) (ground arith) in
    rw (sym (append_assoc t (b'#' ∷ hex_digit d ∷ []) (hex_digit e ∷ []))) last

check_sum-rest :
    (r : Outcome (Text × ℕ)) (v : ℕ) (s t : Text)
    → check_sum r (matched v s) ≡ check_sum r (matched v t)
unfolding check_sum
check_sum-rest (done (pdata, observed)) v s t = refl
check_sum-rest _ v s t = refl

decode_opened-frame :
    (t after : Text) (d e : ℕ)
    → d < 16
    → e < 16
    → decode_opened (frame t d e, after) ≡ outcome t (d * 16 + e)
unfolding decode_opened
decode_opened-frame t after d e hd he =
    decode_stripped-frame t after d e hd he
    ∙ ap (λ (r : Outcome Text). if all_print t then r else runtime_error)
        (check_sum-rest (unescape false t [] 0) (d * 16 + e) after [])

decode-cons :
    (c : ℕ) (s beyond : Text)
    → decode (c ∷ s) beyond ≡ decode_opened (strip_back (strip_front (c ∷ s)) beyond)
unfolding decode
decode-cons c s beyond = ground arith

-- What the decoder makes of a packet, whose data it is to unescape: acknowledgements and what
-- stands behind it do not matter.
pub decode-acked :
    (front back : Bool) (t beyond : Text) (d e : ℕ)
    → d < 16
    → e < 16
    → decode (acked front back (frame t d e)) beyond ≡ outcome t (d * 16 + e)
unfolding strip_front
decode-acked false false t beyond d e hd he =
    decode-cons b'$' (t ++ b'#' ∷ hex_digit d ∷ hex_digit e ∷ []) beyond
    ∙ ap decode_opened (strip_back-frame t beyond d e he)
    ∙ decode_opened-frame t beyond d e hd he
decode-acked false true t beyond d e hd he =
    decode-cons b'$' ((t ++ b'#' ∷ hex_digit d ∷ hex_digit e ∷ []) ++ b'+' ∷ []) beyond
    ∙ ap decode_opened (strip_back-plus (frame t d e) beyond)
    ∙ decode_opened-frame t (b'+' ∷ beyond) d e hd he
decode-acked true false t beyond d e hd he =
    decode-cons b'+' (frame t d e) beyond
    ∙ ap decode_opened (strip_back-frame t beyond d e he)
    ∙ decode_opened-frame t beyond d e hd he
decode-acked true true t beyond d e hd he =
    decode-cons b'+' (frame t d e ++ b'+' ∷ []) beyond
    ∙ ap decode_opened (strip_back-plus (frame t d e) beyond)
    ∙ decode_opened-frame t (b'+' ∷ beyond) d e hd he
