-- ===== src/Debug/Requests.antt =====
-- The texts of the commands `m` and `M` (src/debug_server.C): the address in hexadecimal, and the
-- length as "%d" reads it, in decimal.
use dimebox.Common.{
  ℕ, zero, suc, Bool, true, ◌≡◌, ◌<◌, refl, arith, ap, ◌∙◌, ◌+◌, ◌-◌, ◌*◌, ◌/◌, ◌%◌, ◌^◌, ltb, leb,
  ltb_of_<, ltb_of_≥, <-cases, inl, inr, ◌==◌, if◌then◌else◌, Option, some, none, List, [], ◌∷◌,
  ◌++◌,
}
use dimebox.Rsp.Text.{Text, length, hex_digit, digit_value}
use dimebox.Rsp.Scan.{
  Scan, Scanner, matched, unmatched, undefined, ◌>>=◌, ◌>>◌, pure, scan_unsigned, scan_d,
  scan_number, scan_digits, literal,
}
use dimebox.Debug.Memory.{scan_range}
use dimebox.Debug.Addresses.{
  are_digits, spelled, number, skip_space-none, scan_signed-none, is_space-hex_digit,
  is_sign-hex_digit, scan_unsigned-spelled,
}

-- "%d", for a number below 100.
abbrev pub decimal : ℕ → Text
decimal n = if ltb n 10 then hex_digit n ∷ [] else hex_digit (n / 10) ∷ hex_digit (n % 10) ∷ []

digit_value-decimal : (d : ℕ) → d < 10 → digit_value 10 (hex_digit d) ≡ some d
unfolding digit_value hex_digit
digit_value-decimal d h = ground arith

-- Where a length ends: at the end of a request, or at the colon.
abbrev ends : Text → Bool
ends [] = true
ends (c ∷ s) = c == b':'

colon_of : (c : ℕ) → (c == b':') ≡ true → c ≡ b':'
colon_of c h = ground arith

digit_value-colon : (c : ℕ) → (c == b':') ≡ true → digit_value 10 c ≡ none
unfolding digit_value
digit_value-colon c h = rw (colon_of c h) refl

scan_digits-end :
    (width acc : ℕ) (rest : Text) → ends rest ≡ true → scan_digits 10 width acc rest ≡ (acc, rest)
unfolding scan_digits
scan_digits-end zero acc rest h = refl
scan_digits-end (suc width) acc [] h = refl
scan_digits-end (suc width) acc (c ∷ s) h =
    ap
      (λ (v : Option ℕ). elim v as (λ _. ℕ × Text) [
        | none ↦ (acc, c ∷ s)
        | some d ↦ scan_digits 10 width (acc * 10 + d) s
      ])
      (digit_value-colon c h)

-- What the digits behind the first come to.
abbrev first_digit : ℕ → Text → Option ℕ → Scan ℕ
first_digit width s none = unmatched
first_digit width s (some d) = let (v, rest) = scan_digits 10 width d s in matched v rest

scan_number-first :
    (width d : ℕ) (s : Text)
    → d < 10
    → scan_number 10 (suc width) (hex_digit d ∷ s)
      ≡ (let (v, rest) = scan_digits 10 width d s in matched v rest)
unfolding scan_number
scan_number-first width d s h = ap (first_digit width s) (digit_value-decimal d h)

scan_digits-next :
    (width acc d : ℕ) (rest : Text)
    → d < 10
    → ends rest ≡ true
    → scan_digits 10 (suc width) acc (hex_digit d ∷ rest) ≡ (acc * 10 + d, rest)
unfolding scan_digits
scan_digits-next width acc d rest h k =
    ap
      (λ (v : Option ℕ). elim v as (λ _. ℕ × Text) [
        | none ↦ (acc, hex_digit d ∷ rest)
        | some e ↦ scan_digits 10 width (acc * 10 + e) rest
      ])
      (digit_value-decimal d h)
    ∙ scan_digits-end width (acc * 10 + d) rest k

scan_d-plain :
    (d v : ℕ) (s rest : Text)
    → d < 10
    → v < 100
    → scan_number 10 (suc (length s)) (hex_digit d ∷ s) ≡ matched v rest
    → scan_d (hex_digit d ∷ s) ≡ matched v rest
unfolding scan_d
scan_d-plain d v s rest small bound scanned =
    let fits : leb v (2 ^ 31 - 1) ≡ true = ground arith in
    rw
      (
        scan_d,
        skip_space-none (hex_digit d) s (is_space-hex_digit d (omega arith)),
        scan_signed-none (scan_number 10) (length s) (hex_digit d) v s rest
            (is_sign-hex_digit d (omega arith)) scanned,
        fits,
      )
      refl

scan_d-decimal :
    (n : ℕ) (rest : Text) → n < 100 → ends rest ≡ true → scan_d (decimal n ++ rest) ≡ matched n rest
scan_d-decimal n rest h k = elim (<-cases n 10) [
  | inl small ↦ rw (ltb_of_< n 10 small) (
      scan_d-plain n n rest rest small h (
        scan_number-first (length rest) n rest small
        ∙ ap (λ (r : ℕ × Text). matched r.0 r.1) (scan_digits-end (length rest) n rest k)))
  | inr large ↦ rw (ltb_of_≥ n 10 large) (
      scan_d-plain (n / 10) n (hex_digit (n % 10) ∷ rest) rest (omega arith) h (
        scan_number-first (suc (length rest)) (n / 10) (hex_digit (n % 10) ∷ rest) (omega arith)
        ∙ ap (λ (r : ℕ × Text). matched r.0 r.1)
            (scan_digits-next (length rest) (n / 10) (n % 10) rest (omega arith) k)
        ∙ ap (λ (v : ℕ). matched v rest) (omega arith)))
]

bind-matched :
    {A B : Type 0} (m : Scanner A) (f : A → Scanner B) (s t : Text) (a : A)
    → m s ≡ matched a t
    → (m >>= f) s ≡ f a t
bind-matched m f s t a h =
    ap
      (λ (r : Scan _). elim r [
        | matched b u ↦ f b u
        | unmatched ↦ unmatched
        | undefined ↦ undefined
      ])
      h

abbrev then_length : ℕ → Scanner (ℕ × ℕ)
then_length maddr = (literal b',' >> scan_d) >>= λ msize. pure (maddr, msize)

-- The address and the length of a request.
abbrev pub range : List ℕ → ℕ → Text
range ds n = spelled ds ++ b',' ∷ decimal n

pub scan_range-spelled :
    (d : ℕ) (ds : List ℕ) (n : ℕ) (rest : Text)
    → are_digits (d ∷ ds) ≡ true
    → number 0 (d ∷ ds) < 2 ^ 64
    → n < 100
    → ends rest ≡ true
    → scan_range (spelled (d ∷ ds) ++ b',' ∷ (decimal n ++ rest))
      ≡ matched (number 0 (d ∷ ds), n) rest
unfolding scan_range literal
scan_range-spelled d ds n rest h bound small k =
    bind-matched (scan_unsigned 64) then_length (spelled (d ∷ ds) ++ b',' ∷ (decimal n ++ rest))
      (b',' ∷ (decimal n ++ rest)) (number 0 (d ∷ ds))
      (scan_unsigned-spelled d ds (decimal n ++ rest) h bound)
    ∙ bind-matched scan_d (λ msize. pure (number 0 (d ∷ ds), msize)) (decimal n ++ rest) rest n
        (scan_d-decimal n rest small k)
