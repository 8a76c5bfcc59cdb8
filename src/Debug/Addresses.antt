-- ===== src/Debug/Addresses.antt =====
-- Addresses in hexadecimal, as the commands `m` and `M` read them (src/debug_server.C).
use dimebox.Common.{
  ℕ, zero, suc, Bool, true, false, ◌≡◌, ◌<◌, ◌≤◌, refl, arith, ap, ◌∙◌, ◌&&◌, ◌||◌, ◌+◌, ◌*◌, ◌^◌,
  ltb, ltb_of_<, ◌==◌, if◌then◌else◌, Option, some, none, List, [], ◌∷◌, ◌++◌,
}
use dimebox.Rsp.Text.{Text, length, hex_digit, digit_value, is_space}
use dimebox.Rsp.Scan.{
  Scan, Scanner, matched, unmatched, scan_unsigned, scan_x, scan_signed, scan_hex, scan_number,
  scan_digits, skip_space,
}
use dimebox.Rsp.PacketLaws.{digit_value-hex_digit}

abbrev pub are_digits : List ℕ → Bool
are_digits [] = true
are_digits (d ∷ ds) = ltb d 16 && are_digits ds

-- Digits as text, and the number that they are.
abbrev pub spelled : List ℕ → Text
spelled [] = []
spelled (d ∷ ds) = hex_digit d ∷ spelled ds

abbrev pub number : ℕ → List ℕ → ℕ
number acc [] = acc
number acc (d ∷ ds) = number (acc * 16 + d) ds

scan_digits-spelled :
    (width acc : ℕ) (ds : List ℕ) (rest : Text)
    → are_digits ds ≡ true
    → length (spelled ds) ≤ width
    → scan_digits 16 width acc (spelled ds ++ b',' ∷ rest) ≡ (number acc ds, b',' ∷ rest)
unfolding scan_digits digit_value
scan_digits-spelled zero acc [] rest h k = refl
scan_digits-spelled (suc width) acc [] rest h k = refl
scan_digits-spelled zero acc (d ∷ ds) rest h k = ground arith
scan_digits-spelled (suc width) acc (d ∷ ds) rest h k =
    let small : d < 16 = ground arith in
    let others : are_digits ds ≡ true = ground arith in
    ap
      (λ (v : Option ℕ). elim v [
        | none ↦ (acc, spelled (d ∷ ds) ++ b',' ∷ rest)
        | some e ↦ scan_digits 16 width (acc * 16 + e) (spelled ds ++ b',' ∷ rest)
      ])
      (digit_value-hex_digit d small)
    ∙ scan_digits-spelled width (acc * 16 + d) ds rest others (omega arith)

scan_number-spelled :
    (width d : ℕ) (ds : List ℕ) (rest : Text)
    → d < 16
    → are_digits ds ≡ true
    → length (spelled ds) ≤ width
    → scan_number 16 (suc width) (spelled (d ∷ ds) ++ b',' ∷ rest)
      ≡ matched (number d ds) (b',' ∷ rest)
unfolding scan_number digit_value
scan_number-spelled width d ds rest small others k =
    ap
      (λ (v : Option ℕ). elim v as (λ _. Scan ℕ) [
        | none ↦ unmatched
        | some e ↦
            (let (n, left) = scan_digits 16 width e (spelled ds ++ b',' ∷ rest) in matched n left)
      ])
      (digit_value-hex_digit d small)
    ∙ ap (λ (r : ℕ × Text). matched r.0 r.1) (scan_digits-spelled width d ds rest others k)

pub skip_space-none : (c : ℕ) (s : Text) → is_space c ≡ false → skip_space (c ∷ s) ≡ c ∷ s
unfolding skip_space
skip_space-none c s h = ap (λ (b : Bool). if b then skip_space s else c ∷ s) h

abbrev pub is_sign : ℕ → Bool
is_sign c = (c == b'-') || (c == b'+')

pub scan_signed-none :
    (scan : ℕ → Scanner ℕ) (width c v : ℕ) (s rest : Text)
    → is_sign c ≡ false
    → scan (suc width) (c ∷ s) ≡ matched v rest
    → scan_signed scan (suc width) (c ∷ s) ≡ matched (false, v) rest
unfolding scan_signed
scan_signed-none scan width c v s rest h scanned = ground arith

scan_hex-plain :
    (width c d : ℕ) (s : Text)
    → ((d == b'x') || (d == b'X')) ≡ false
    → scan_hex (suc (suc width)) (c ∷ d ∷ s) ≡ scan_number 16 (suc (suc width)) (c ∷ d ∷ s)
unfolding scan_hex
scan_hex-plain width c d s h = ground arith

-- A number without a prefix, a sign and a space in front.
scan_x-plain :
    (bits width c v : ℕ) (s rest : Text)
    → is_space c ≡ false
    → is_sign c ≡ false
    → v < 2 ^ bits
    → scan_hex (suc width) (c ∷ s) ≡ matched v rest
    → scan_x bits (suc width) (c ∷ s) ≡ matched v rest
unfolding scan_x
scan_x-plain bits width c v s rest space sign bound scanned =
    rw
      (
        scan_x,
        skip_space-none c s space,
        scan_signed-none scan_hex width c v s rest sign scanned,
        ltb_of_< v (2 ^ bits) bound,
      )
      refl

pub is_space-hex_digit : (d : ℕ) → d < 16 → is_space (hex_digit d) ≡ false
unfolding hex_digit
is_space-hex_digit d h = ground arith

pub is_sign-hex_digit : (d : ℕ) → d < 16 → is_sign (hex_digit d) ≡ false
unfolding hex_digit
is_sign-hex_digit d h = ground arith

abbrev is_prefix : ℕ → Bool
is_prefix c = (c == b'x') || (c == b'X')

is_prefix-hex_digit : (d : ℕ) → d < 16 → is_prefix (hex_digit d) ≡ false
unfolding hex_digit
is_prefix-hex_digit d h = ground arith

length-spelled : (ds : List ℕ) (s : Text) → length (spelled ds) ≤ length (spelled ds ++ s)
length-spelled [] s = omega arith
length-spelled (d ∷ ds) s = omega (arith, length-spelled ds s)

scan_unsigned-lead :
    (d c v : ℕ) (s rest : Text)
    → d < 16
    → is_prefix c ≡ false
    → v < 2 ^ 64
    → scan_number 16 (suc (suc (length s))) (hex_digit d ∷ c ∷ s) ≡ matched v rest
    → scan_unsigned 64 (hex_digit d ∷ c ∷ s) ≡ matched v rest
unfolding scan_unsigned
scan_unsigned-lead d c v s rest small plain bound scanned =
    scan_x-plain 64 (suc (length s)) (hex_digit d) v (c ∷ s) rest (is_space-hex_digit d small)
      (is_sign-hex_digit d small) bound
      (scan_hex-plain (length s) (hex_digit d) c s plain ∙ scanned)

pub scan_unsigned-spelled :
    (d : ℕ) (ds : List ℕ) (rest : Text)
    → are_digits (d ∷ ds) ≡ true
    → number 0 (d ∷ ds) < 2 ^ 64
    → scan_unsigned 64 (spelled (d ∷ ds) ++ b',' ∷ rest) ≡ matched (number 0 (d ∷ ds)) (b',' ∷ rest)
scan_unsigned-spelled d [] rest h bound =
    let small : d < 16 = ground arith in
    scan_unsigned-lead d b',' (number 0 (d ∷ [])) rest (b',' ∷ rest) small refl bound (
      scan_number-spelled (suc (length rest)) d [] rest small refl (omega arith)
      ∙ ap (λ (v : ℕ). matched v (b',' ∷ rest)) (omega arith))
scan_unsigned-spelled d (e ∷ ds) rest h bound =
    let small : d < 16 = ground arith in
    let next : e < 16 = ground arith in
    let others : are_digits (e ∷ ds) ≡ true = ground arith in
    scan_unsigned-lead d (hex_digit e) (number 0 (d ∷ e ∷ ds)) (spelled ds ++ b',' ∷ rest)
      (b',' ∷ rest) small (is_prefix-hex_digit e next) bound
      (scan_number-spelled (suc (length (spelled ds ++ b',' ∷ rest))) d (e ∷ ds) rest small others
          (omega (arith, length-spelled ds (b',' ∷ rest)))
        ∙ ap (λ (v : ℕ). matched (number (v * 16 + e) ds) (b',' ∷ rest)) (omega arith))
