-- ===== src/Rsp/Text.antt =====
-- What the debug protocol uses of C's text functions: printf and sscanf, isprint and isdigit, and
-- find and substr of std::string. A text is the list of its bytes.
use Prim.Native.Char.{code}
use Prim.Native.String.{String}
use dimebox.Common.{
  ℕ, zero, suc, Bool, true, false, ◌&&◌, ◌||◌, ◌+◌, ◌-◌, ◌/◌, ◌%◌, ltb, leb, ◌==◌, if◌then◌else◌,
  Option, none, some, List, [], ◌∷◌,
}

abbrev pub Text : Type 0
Text = List ℕ

-- The bytes of a literal.
abbrev pub codes : String → Text
codes String.[] = []
codes (String.◌∷◌ c s) = code c ∷ codes s

abbrev pub length : Text → ℕ
length [] = 0
length (c ∷ s) = suc (length s)

abbrev pub take : ℕ → Text → Text
take zero s = []
take (suc n) [] = []
take (suc n) (c ∷ s) = c ∷ take n s

abbrev pub drop : ℕ → Text → Text
drop zero s = s
drop (suc n) [] = []
drop (suc n) (c ∷ s) = drop n s

-- `s[i]` of a std::string: the NUL at its end is an element, and behind it there is none.
abbrev pub char_at : Text → ℕ → Option ℕ
char_at [] zero = some 0
char_at [] (suc i) = none
char_at (c ∷ s) zero = some c
char_at (c ∷ s) (suc i) = char_at s i

abbrev pub is_print : ℕ → Bool
is_print c = leb 32 c && leb c 126

abbrev pub is_digit : ℕ → Bool
is_digit c = leb b'0' c && leb c b'9'

abbrev pub is_space : ℕ → Bool
is_space c = (c == 32) || (leb 9 c && leb c 13)

unfoldable pub equal : Text → Text → Bool
equal [] [] = true
equal [] (d ∷ t) = false
equal (c ∷ s) [] = false
equal (c ∷ s) (d ∷ t) = (c == d) && equal s t

unfoldable pub starts_with : Text → Text → Bool
starts_with s [] = true
starts_with [] (d ∷ t) = false
starts_with (c ∷ s) (d ∷ t) = (c == d) && starts_with s t

-- `s.find(t)`: what begins at the first occurrence of `t`, if there is one.
unfoldable pub find : Text → Text → Option Text
unfolding starts_with
find [] t = if starts_with [] t then some [] else none
find (c ∷ s) t = if starts_with (c ∷ s) t then some (c ∷ s) else find s t

unfoldable pub contains : Text → Text → Bool
unfolding find
contains s t = elim (find s t) [ none ↦ false | some _ ↦ true ]

-- A digit of "%x", for a value below 16.
unfoldable pub hex_digit : ℕ → ℕ
hex_digit d = if ltb d 10 then b'0' + d else b'a' + (d - 10)

-- "%02x", for a value below 256.
unfoldable pub hex2 : ℕ → Text
unfolding hex_digit
hex2 v = hex_digit (v / 16) ∷ hex_digit (v % 16) ∷ []

-- The value of a digit of the base.
unfoldable pub digit_value : ℕ → ℕ → Option ℕ
digit_value base c =
    let v =
      if is_digit c
      then c - b'0'
      else if leb b'a' c && leb c b'f'
      then c - b'a' + 10
      else if leb b'A' c && leb c b'F'
      then c - b'A' + 10
      else base in
    if ltb v base then some v else none
