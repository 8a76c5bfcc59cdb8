-- ===== src/Debug/Commands.antt =====
-- The commands `m` and `M` from their texts (src/debug_server.C).
use dimebox.Common.{
  ℕ, Bool, true, not, ◌≡◌, ◌<◌, ◌≤◌, refl, arith, ap, sym, ◌∙◌, ◌&&◌, ◌+◌, ◌/◌, ◌%◌, ◌^◌, ◌==◌,
  Option, some, List, [], ◌∷◌, ◌++◌, append_assoc, append-nil, <-cases, inl, inr, ltb_of_<,
  ltb_of_≥,
}
use dimebox.Rsp.Text.{Text, codes, find, starts_with, hex_digit}
use dimebox.Rsp.Scan.{Scan, matched, unmatched, undefined}
use dimebox.Rsp.Command.{Reply, response}
use dimebox.Memory.{Memory}
use dimebox.Memory.Devices.{Buffer}
use dimebox.Memory.RoundTrip.{IsConfigured, is_silent}
use dimebox.Debug.Session.{Session}
use dimebox.Debug.Memory.{
  MemoryPort, spell_bytes, scan_range, read_bytes, write_bytes, read_memory, write_memory,
}
use dimebox.Debug.Port.{port}
use dimebox.Debug.MemoryLaws.{read_bytes-write_bytes}
use dimebox.Debug.Addresses.{are_digits, spelled, number}
use dimebox.Debug.Requests.{decimal, scan_range-spelled}

-- The texts of the requests: the digits of the address, the length, and the bytes of a write.
abbrev pub read_request : List ℕ → ℕ → Text
read_request ds n = b'm' ∷ (spelled ds ++ b',' ∷ decimal n)

abbrev pub write_request : List ℕ → ℕ → Text → Text
write_request ds n value = b'M' ∷ (spelled ds ++ b',' ∷ (decimal n ++ b':' ∷ value))

-- Whether no character is a colon.
abbrev has_none : Text → Bool
has_none [] = true
has_none (c ∷ s) = not (c == b':') && has_none s

find-past :
    (s value : Text)
    → has_none s ≡ true
    → find (s ++ b':' ∷ value) (codes ":") ≡ some (b':' ∷ value)
unfolding find starts_with
find-past [] value h = refl
find-past (c ∷ s) value h = ground (arith, find-past s value)

has_none-hex_digit : (d : ℕ) → d < 16 → not (hex_digit d == b':') ≡ true
unfolding hex_digit
has_none-hex_digit d h = ground arith

has_none-spelled :
    (ds : List ℕ) (s : Text) → are_digits ds ≡ true → has_none (spelled ds ++ s) ≡ has_none s
has_none-spelled [] s h = refl
has_none-spelled (d ∷ ds) s h =
    let small : d < 16 = ground arith in
    let others : are_digits ds ≡ true = ground arith in
    rw (has_none-hex_digit d small) (has_none-spelled ds s others)

has_none-decimal : (n : ℕ) → n < 100 → has_none (decimal n) ≡ true
has_none-decimal n h = elim (<-cases n 10) [
  | inl small ↦ rw (ltb_of_< n 10 small, has_none-hex_digit n (omega arith)) refl
  | inr large ↦
      rw
        (
          ltb_of_≥ n 10 large,
          has_none-hex_digit (n / 10) (omega arith),
          has_none-hex_digit (n % 10) (omega arith),
        )
        refl
]

find-value :
    (ds : List ℕ) (n : ℕ) (value : Text)
    → are_digits ds ≡ true
    → n < 100
    → find (write_request ds n value) (codes ":") ≡ some (b':' ∷ value)
find-value ds n value h small =
    ap (λ (s : Text). find (b'M' ∷ s) (codes ":"))
      (sym (append_assoc (spelled ds) (b',' ∷ decimal n) (b':' ∷ value)))
    ∙ find-past (b'M' ∷ (spelled ds ++ b',' ∷ decimal n)) value
        (has_none-spelled ds (b',' ∷ decimal n) h ∙ has_none-decimal n small)

module _ {M : Type 0} (port : MemoryPort M) where
  read_memory-request :
      (d : ℕ) (ds : List ℕ) (n : ℕ) (s : Session M)
      → are_digits (d ∷ ds) ≡ true
      → number 0 (d ∷ ds) < 2 ^ 64
      → n < 100
      → read_memory port (read_request (d ∷ ds) n) s ≡ read_bytes port (number 0 (d ∷ ds)) n s
  unfolding read_memory
  read_memory-request d ds n s h bound small =
      ap
        (λ (r : Scan (ℕ × ℕ)). elim r as (λ _. Reply × Session M) [
          | matched (maddr, msize) _ ↦ read_bytes port maddr msize s
          | unmatched ↦ (response (codes "E1"), s)
          | undefined ↦ (Reply.undefined, s)
        ])
        (ap (λ (t : Text). scan_range (spelled (d ∷ ds) ++ b',' ∷ t)) (sym (append-nil (decimal n)))
          ∙ scan_range-spelled d ds n [] h bound small refl)

  write_memory-request :
      (d : ℕ) (ds : List ℕ) (n : ℕ) (value : Text) (s : Session M)
      → are_digits (d ∷ ds) ≡ true
      → number 0 (d ∷ ds) < 2 ^ 64
      → n < 100
      → write_memory port (write_request (d ∷ ds) n value) s
        ≡ write_bytes port (number 0 (d ∷ ds)) n (some (b':' ∷ value)) s
  unfolding write_memory
  write_memory-request d ds n value s h bound small =
      ap
        (λ (r : Scan (ℕ × ℕ)). elim r as (λ _. Reply × Session M) [
          | matched (maddr, msize) _ ↦
              write_bytes port maddr msize (find (write_request (d ∷ ds) n value) (codes ":")) s
          | unmatched ↦ (response (codes "E1"), s)
          | undefined ↦ (Reply.undefined, s)
        ])
        (scan_range-spelled d ds n (b':' ∷ value) h bound small refl)
      ∙ ap (λ (t : Option Text). write_bytes port (number 0 (d ∷ ds)) n t s)
          (find-value (d ∷ ds) n value h small)

-- A client writes 1 to 32 bytes with the command `M`, to addresses that no device has, in the memory
-- that the simulator sets up: the reply is OK, and the command `m` then replies with the same bytes.
-- In both requests the address is in hexadecimal digits, in lower case and as many as the client
-- likes, and the length is in decimal, which is how the server reads it.
pub read_memory-write_memory :
    (rand : ℕ → ℕ) (d : ℕ) (ds : List ℕ) (n : ℕ) (f : Buffer) (s : Session Memory)
    → IsConfigured s.memory
    → are_digits (d ∷ ds) ≡ true
    → is_silent (number 0 (d ∷ ds)) s.memory.devices ≡ true
    → ((k : ℕ) → f k < 256)
    → 0 < n
    → n ≤ 32
    → number 0 (d ∷ ds) + n ≤ 2 ^ 32
    → (let (reply, t) = write_memory (port rand) (write_request (d ∷ ds) n (spell_bytes n 0 f)) s in
        (reply ≡ response (codes "OK"))
        × ((read_memory (port rand) (read_request (d ∷ ds) n) t).0 ≡ response (spell_bytes n 0 f)))
read_memory-write_memory rand d ds n f s c h silent bounded some_bytes small bound =
    let a = number 0 (d ∷ ds) in
    let value = spell_bytes n 0 f in
    let (replied, got) =
      read_bytes-write_bytes rand a n f s c silent bounded some_bytes small bound in
    let written = write_memory-request (port rand) d ds n value s h (omega arith) (omega arith) in
    let t = (write_bytes (port rand) a n (some (b':' ∷ value)) s).1 in
    (
      ap (λ (r : Reply × Session Memory). r.0) written ∙ replied,
      ap (λ (r : Reply × Session Memory). (read_memory (port rand) (read_request (d ∷ ds) n) r.1).0)
            written
          ∙ ap (λ (r : Reply × Session Memory). r.0)
              (read_memory-request (port rand) d ds n t h (omega arith) (omega arith))
          ∙ got,
    )
