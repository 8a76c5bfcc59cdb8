-- ===== src/Debug/ValueLaws.antt =====
-- Numbers that are written as text and read back (src/debug_server.C).
use dimebox.Common.{
  ℕ, suc, Bool, true, ap, sym, ◌≡◌, ◌<◌, ◌≤◌, refl, arith, ◌∙◌, ◌+◌, ◌*◌, ◌/◌, ◌%◌, ◌^◌, u32, ◌>>>◌,
  bit_and, bit_or, none, some, ◌++◌, or_split, or-zero, zero-or, and_ones,
}
use dimebox.Rsp.Text.{Text, hex2, length, drop}
use dimebox.Rsp.Scan.{matched, scan_x}
use dimebox.Rsp.PacketLaws.{scan_x-digits}
use dimebox.Debug.Values.{le4, le8, decoded_le4, decoded_le8, decoded_loop, le_loop, add_byte}

pub scan_x-hex2 : (b : ℕ) (rest : Text) → b < 256 → scan_x 32 2 (hex2 b ++ rest) ≡ matched b rest
unfolding hex2
scan_x-hex2 b rest h =
    scan_x-digits (b / 16) (b % 16) rest (omega arith) (omega arith)
    ∙ ap (λ (v : ℕ). matched v rest) (omega arith)

or_byte : (k acc b : ℕ) → acc < 2 ^ k → bit_or acc (b * 2 ^ k) ≡ acc + b * 2 ^ k
or_byte k acc b h =
    let low : 0 * 2 ^ k + acc ≡ acc = omega arith in
    let high : b * 2 ^ k + 0 ≡ b * 2 ^ k = omega arith in
    ap (λ (x : ℕ). bit_or x (b * 2 ^ k)) (sym low)
    ∙ ap (bit_or (0 * 2 ^ k + acc)) (sym high)
    ∙ or_split k 0 acc b 0 h (omega arith)
    ∙ rw (zero-or, or-zero) (omega arith)

add_byte-matched :
    (i acc b k : ℕ) (rest : Text)
    → i * 8 ≡ k
    → k < 32
    → acc < 2 ^ k
    → b * 2 ^ k < 2 ^ 32
    → add_byte i (true, acc) (matched b rest) ≡ some (true, acc + b * 2 ^ k)
unfolding add_byte
add_byte-matched i acc b k rest e small ha hb = rw e (ground (arith, or_byte k acc b))

decoded_loop-step :
    (n i acc b k : ℕ) (encoded rest : Text)
    → i * 8 ≡ k
    → k < 32
    → acc < 2 ^ k
    → b * 2 ^ k < 2 ^ 32
    → b < 256
    → i * 2 ≤ length encoded
    → drop (i * 2) encoded ≡ hex2 b ++ rest
    → decoded_loop (suc n) i encoded (true, acc)
      ≡ decoded_loop n (i + 1) encoded (true, acc + b * 2 ^ k)
unfolding decoded_loop
decoded_loop-step n i acc b k encoded rest e small ha hb byte inside at =
    let scanned = ap (scan_x 32 2) at ∙ scan_x-hex2 b rest byte in
    let added =
      ap (add_byte i (true, acc)) scanned ∙ add_byte-matched i acc b k rest e small ha hb in
    ground (arith, added)

-- Four bytes of a number and any text behind them.
abbrev spelled : ℕ → ℕ → ℕ → ℕ → Text → Text
spelled a b c d rest = hex2 a ++ (hex2 b ++ (hex2 c ++ (hex2 d ++ rest)))

-- The first four rounds of the loop.
decoded_loop-spelled :
    (n a b c d : ℕ) (rest : Text)
    → a < 256
    → b < 256
    → c < 256
    → d < 256
    → decoded_loop (suc (suc (suc (suc n)))) 0 (spelled a b c d rest) (true, 0)
      ≡ decoded_loop n 4 (spelled a b c d rest) (true, a + b * 2 ^ 8 + c * 2 ^ 16 + d * 2 ^ 24)
unfolding hex2
decoded_loop-spelled n a b c d rest ha hb hc hd =
    let t = spelled a b c d rest in
    let two = a + b * 2 ^ 8 in
    let three = two + c * 2 ^ 16 in
    let one : 0 + a * 2 ^ 0 ≡ a = omega arith in
    decoded_loop-step (suc (suc (suc n))) 0 0 a 0 t (hex2 b ++ (hex2 c ++ (hex2 d ++ rest))) refl
      (omega arith) (omega arith) (omega arith) ha (omega arith) refl
    ∙ ap (λ (v : ℕ). decoded_loop (suc (suc (suc n))) 1 t (true, v)) one
    ∙ decoded_loop-step (suc (suc n)) 1 a b 8 t (hex2 c ++ (hex2 d ++ rest)) refl (omega arith)
        (omega arith) (omega arith) hb (omega arith) refl
    ∙ decoded_loop-step (suc n) 2 two c 16 t (hex2 d ++ rest) refl (omega arith) (omega arith)
        (omega arith) hc (omega arith) refl
    ∙ decoded_loop-step n 3 three d 24 t rest refl (omega arith) (omega arith) (omega arith) hd
        (omega arith) refl

decoded_le4-spelled :
    (a b c d : ℕ) (rest : Text)
    → a < 256
    → b < 256
    → c < 256
    → d < 256
    → decoded_le4 (spelled a b c d rest) ≡ some (true, a + b * 2 ^ 8 + c * 2 ^ 16 + d * 2 ^ 24)
unfolding decoded_le4
decoded_le4-spelled a b c d rest ha hb hc hd = decoded_loop-spelled 0 a b c d rest ha hb hc hd

decoded_loop-undefined :
    (n e : ℕ) (t rest : Text) (acc : Bool × ℕ)
    → e < 256
    → 8 ≤ length t
    → drop 8 t ≡ hex2 e ++ rest
    → decoded_loop (suc n) 4 t acc ≡ none
unfolding decoded_loop add_byte
decoded_loop-undefined n e t rest (success, rv) he inside at =
    let scanned = ap (scan_x 32 2) at ∙ scan_x-hex2 e rest he in ground (arith, scanned)

byte_lem : (v k : ℕ) → bit_and (v >>> k) 0xff ≡ v / 2 ^ k % 256
byte_lem v k = and_ones 8 (v / 2 ^ k)

le4-spelled :
    (v : ℕ) (rest : Text)
    → v < 2 ^ 32
    → le4 v ++ rest ≡ spelled (v % 256) (v / 2 ^ 8 % 256) (v / 2 ^ 16 % 256) (v / 2 ^ 24 % 256) rest
unfolding le4 le_loop hex2
le4-spelled v rest h =
    let first : bit_and (u32 v >>> 0) 255 ≡ v % 256 = byte_lem (u32 v) 0 ∙ omega arith in
    let second : bit_and (u32 v >>> 8) 255 ≡ v / 2 ^ 8 % 256 = byte_lem (u32 v) 8 ∙ omega arith in
    let third : bit_and (u32 v >>> 16) 255 ≡ v / 2 ^ 16 % 256 = byte_lem (u32 v) 16 ∙ omega arith in
    let fourth : bit_and (u32 v >>> 24) 255 ≡ v / 2 ^ 24 % 256 =
      byte_lem (u32 v) 24 ∙ omega arith in
    λ i. spelled (first i) (second i) (third i) (fourth i) rest

-- A register value that is written as text is read back, whatever follows it.
pub decoded_le4-le4 :
    (v : ℕ) (rest : Text) → v < 2 ^ 32 → decoded_le4 (le4 v ++ rest) ≡ some (true, v)
decoded_le4-le4 v rest h =
    ap decoded_le4 (le4-spelled v rest h)
    ∙ decoded_le4-spelled (v % 256) (v / 2 ^ 8 % 256) (v / 2 ^ 16 % 256) (v / 2 ^ 24 % 256) rest
        (omega arith) (omega arith) (omega arith) (omega arith)
    ∙ ap (λ (w : ℕ). some (true, w)) (omega arith)

spelled_tail : (v : ℕ) → Text
spelled_tail v =
    hex2 (v / 2 ^ 32 % 256)
    ++ (hex2 (v / 2 ^ 40 % 256) ++ (hex2 (v / 2 ^ 48 % 256) ++ hex2 (v / 2 ^ 56 % 256)))

le8-spelled :
    (v : ℕ)
    → le8 v
      ≡ spelled (v % 256) (v / 2 ^ 8 % 256) (v / 2 ^ 16 % 256) (v / 2 ^ 24 % 256) (spelled_tail v)
unfolding le8 le_loop hex2 spelled_tail
le8-spelled v =
    let first : bit_and (v >>> 0) 255 ≡ v % 256 = byte_lem v 0 ∙ omega arith in
    λ i. spelled (first i) (byte_lem v 8 i) (byte_lem v 16 i) (byte_lem v 24 i) (
      hex2 (byte_lem v 32 i)
      ++ (hex2 (byte_lem v 40 i) ++ (hex2 (byte_lem v 48 i) ++ hex2 (byte_lem v 56 i))))

-- A value of 64 bits that is written as text is not read back: the read of any of them shifts an
-- `unsigned int` by 32, which is undefined.
decoded_le8-le8 : (v : ℕ) → decoded_le8 (le8 v) ≡ none
unfolding decoded_le8 spelled_tail hex2
decoded_le8-le8 v =
    let t =
      spelled (v % 256) (v / 2 ^ 8 % 256) (v / 2 ^ 16 % 256) (v / 2 ^ 24 % 256) (spelled_tail v) in
    let rest = hex2 (v / 2 ^ 40 % 256) ++ (hex2 (v / 2 ^ 48 % 256) ++ hex2 (v / 2 ^ 56 % 256)) in
    ap decoded_le8 (le8-spelled v)
    ∙ decoded_loop-spelled 4 (v % 256) (v / 2 ^ 8 % 256) (v / 2 ^ 16 % 256) (v / 2 ^ 24 % 256)
        (spelled_tail v) (omega arith) (omega arith) (omega arith) (omega arith)
    ∙ decoded_loop-undefined 3 (v / 2 ^ 32 % 256) t rest
        (
          true,
          v % 256 + v / 2 ^ 8 % 256 * 2 ^ 8 + v / 2 ^ 16 % 256 * 2 ^ 16 + v / 2 ^ 24 % 256 * 2 ^ 24,
        )
        (omega arith) (omega arith) refl
