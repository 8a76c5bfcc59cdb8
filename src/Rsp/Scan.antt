-- ===== src/Rsp/Scan.antt =====
-- sscanf, for the conversions that the debug protocol uses: "%x", "%2x", "%llx" and "%d". What the
-- conversion of a number does that does not fit its type is undefined in C.
use dimebox.Common.{
  ℕ, zero, suc, Bool, true, false, ◌&&◌, ◌||◌, ◌+◌, ◌-◌, ◌*◌, ◌%◌, ◌^◌, ltb, leb, ◌==◌,
  if◌then◌else◌, none, some, [], ◌∷◌,
}
use dimebox.Rsp.Text.{Text, length, is_space, digit_value}

-- A conversion that matches gives a value and the text behind it.
pub data Scan (A : Type 0) : Type 0 where
  matched : A → Text → Scan A
  unmatched undefined : Scan A

abbrev pub Scanner : Type 0 → Type 0
Scanner A = Text → Scan A

infixl 5 ◌>>=◌ ◌>>◌
abbrev pub ◌>>=◌ : {A B : Type 0} → Scanner A → (A → Scanner B) → Scanner B
◌>>=◌ m f s = elim (m s) [ matched a t ↦ f a t | unmatched ↦ unmatched | undefined ↦ undefined ]

abbrev pub ◌>>◌ : {A B : Type 0} → Scanner A → Scanner B → Scanner B
m >> k = m >>= λ _. k

abbrev pub pure : {A : Type 0} → A → Scanner A
pure a s = matched a s

-- A character of the format that stands for itself.
unfoldable pub literal : ℕ → Scanner (Unit {0})
literal c [] = unmatched
literal c (d ∷ s) = if c == d then matched tt s else unmatched

unfoldable pub skip_space : Text → Text
skip_space [] = []
skip_space (c ∷ s) = if is_space c then skip_space s else c ∷ s

-- The digits that follow, `width` at most.
unfoldable pub scan_digits : ℕ → ℕ → ℕ → Text → ℕ × Text
unfolding digit_value
scan_digits base zero acc s = (acc, s)
scan_digits base (suc width) acc [] = (acc, [])
scan_digits base (suc width) acc (c ∷ s) = elim (digit_value base c) [
  | none ↦ (acc, c ∷ s)
  | some d ↦ scan_digits base width (acc * base + d) s
]

-- One digit at least.
unfoldable pub scan_number : ℕ → ℕ → Scanner ℕ
unfolding digit_value scan_digits
scan_number base zero s = unmatched
scan_number base (suc width) [] = unmatched
scan_number base (suc width) (c ∷ s) = elim (digit_value base c) [
  | none ↦ unmatched
  | some d ↦ (let (v, rest) = scan_digits base width d s in matched v rest)
]

abbrev is_x : ℕ → Bool
is_x c = (c == b'x') || (c == b'X')

-- A hexadecimal number with the prefix that it may have.
unfoldable pub scan_hex : ℕ → Scanner ℕ
unfolding scan_number
scan_hex (suc (suc width)) (c ∷ d ∷ s) =
    if (c == b'0') && is_x d
    then scan_number 16 width s
    else scan_number 16 (suc (suc width)) (c ∷ d ∷ s)
scan_hex width s = scan_number 16 width s

-- The sign that may stand in front, and whether it is a minus.
unfoldable pub scan_signed : (ℕ → Scanner ℕ) → ℕ → Scanner (Bool × ℕ)
scan_signed scan zero s = unmatched
scan_signed scan (suc width) [] = unmatched
scan_signed scan (suc width) (c ∷ s) =
    if c == b'-'
    then (scan width >>= (λ v. pure (true, v))) s
    else if c == b'+'
    then (scan width >>= (λ v. pure (false, v))) s
    else (scan (suc width) >>= (λ v. pure (false, v))) (c ∷ s)

-- "%x" with a width, into an unsigned number of `bits`; a minus wraps it.
unfoldable pub scan_x : ℕ → ℕ → Scanner ℕ
unfolding skip_space scan_signed scan_hex
scan_x bits width s = elim (scan_signed scan_hex width (skip_space s)) [
  | matched (minus, v) rest ↦
      if ltb v (2 ^ bits)
      then matched (if minus then (2 ^ bits - v) % 2 ^ bits else v) rest
      else undefined
  | unmatched ↦ unmatched
  | undefined ↦ undefined
]

-- "%d", as the word that represents the `int`.
unfoldable pub scan_d : Scanner ℕ
unfolding skip_space scan_signed scan_number
scan_d s = elim (scan_signed (scan_number 10) (length s) (skip_space s)) [
  | matched (minus, v) rest ↦
      if leb v (if minus then 2 ^ 31 else 2 ^ 31 - 1)
      then matched (if minus then (2 ^ 32 - v) % 2 ^ 32 else v) rest
      else undefined
  | unmatched ↦ unmatched
  | undefined ↦ undefined
]

-- The conversions without a width: a text has no more digits than characters.
unfoldable pub scan_unsigned : ℕ → Scanner ℕ
unfolding scan_x
scan_unsigned bits s = scan_x bits (length s) s
