-- ===== src/Device/Uart/Interrupts.antt =====
-- The interrupts of the UART over every sequence of operations (include/uart_pl011.h,
-- src/uart_pl011.C).
use dimebox.Common.{
  ℕ, Bool, true, false, ap, sym, ◌≡◌, ◌<◌, refl, arith, ◌∙◌, ◌&&◌, ◌+◌, ◌-◌, ◌*◌, ◌/◌, ◌%◌, ◌^◌,
  ◌==◌, ◌!=◌, bit_and, bit_or, if◌then◌else◌, Option, or_split, and_split, or-zero, and-zero,
  and_ones_low,
}
use dimebox.Device.Queue.{full}
use dimebox.Device.Uart.{Uart, Register, reset_uart, register_index, advance_clock, set_clock}
use dimebox.Device.Uart as Uart
use dimebox.Device.Uart.Ports.{
  read, write, read_register, write_register, read_dr, update_status, write_lcr_h, write_ifls,
}
use dimebox.Device.Uart.Lines.{
  transmit, receive, pending_interrupts, is_pending, prime_receive, queue_up, set_overrun,
  set_transmit_interrupt, set_receive_interrupt,
}

abbrev is_ticr : Register → Bool
is_ticr Uart.ticr = true
is_ticr _ = false

-- The word that was last written to the register that clears interrupts, after a write.
abbrev last_cleared : ℕ → ℕ → ℕ → ℕ → ℕ
last_cleared pa rval size w = if (size == 4) && is_ticr (register_index pa) then rval else w

-- What a sequence of operations from a reset on comes to, whatever a program reads and writes and
-- whatever the terminal sends; with the word that was last written to the register that clears
-- interrupts, 0 before there is one.
pub data IsReachable : ℕ → Uart → Type 0 where
  start : (u : Uart) → IsReachable 0 (reset_uart u)
  reads : {w : ℕ} {u : Uart} (pa size : ℕ) → IsReachable w u → IsReachable w (read pa size u).1.1
  writes :
      {w : ℕ} {u : Uart} (pa rval size : ℕ)
      → IsReachable w u
      → IsReachable (last_cleared pa rval size w) (write pa rval size u).1
  transmits : {w : ℕ} {u : Uart} → IsReachable w u → IsReachable w (transmit u).1
  receives :
      {w : ℕ} {u : Uart} (input : Option ℕ) → IsReachable w u → IsReachable w (receive input u)
  primes : {w : ℕ} {u : Uart} (nc : ℕ) → IsReachable w u → IsReachable w (prime_receive nc u)
  ticks : {w : ℕ} {u : Uart} → IsReachable w u → IsReachable w (advance_clock u)
  sets_clock :
      {w : ℕ} {u : Uart} (clock interval : ℕ)
      → IsReachable w u
      → IsReachable w (set_clock clock interval u)

read_register-ris : (r : Register) (u : Uart) → (read_register r u).1.1.uart_ris ≡ u.uart_ris
unfolding read_register read_dr update_status
read_register-ris r u = ground arith

read-ris : (pa size : ℕ) (u : Uart) → (read pa size u).1.1.uart_ris ≡ u.uart_ris
unfolding read
read-ris pa size u = ground (arith, read_register-ris (register_index pa) u)

write_register-ris :
    (r : Register) (rval : ℕ) (u : Uart)
    → (write_register r rval u).1.uart_ris ≡ (if is_ticr r then bit_and rval 0x7ff else u.uart_ris)
unfolding write_register write_lcr_h write_ifls
write_register-ris r rval u = ground arith

write-ris :
    (pa rval size : ℕ) (u : Uart)
    → (write pa rval size u).1.uart_ris
      ≡ (if (size == 4) && is_ticr (register_index pa) then bit_and rval 0x7ff else u.uart_ris)
unfolding write
write-ris pa rval size u = ground (arith, write_register-ris (register_index pa) rval u)

transmit-ris : (u : Uart) → (transmit u).1.uart_ris ≡ u.uart_ris
unfolding transmit set_transmit_interrupt
transmit-ris u = ground arith

receive-ris :
    (input : Option ℕ) (u : Uart)
    → (receive input u).uart_ris ≡ (
        if full u.receive_queue
        then bit_or u.uart_ris 0x400
        else bit_and u.uart_ris (2 ^ 32 - 1 - 0x400))
unfolding receive queue_up set_overrun set_receive_interrupt
receive-ris input u = ground arith

-- The low bits of a word, where the transmit and the receive interrupt are, under the masks.
or-overrun : (a : ℕ) → bit_or a 0x400 % 64 ≡ a % 64
or-overrun a =
    let split = or_split 6 (a / 64) (a % 64) 16 0 (omega arith) (omega arith) in
    let whole : a ≡ a / 64 * 2 ^ 6 + a % 64 = omega arith in
    ap (λ (b : ℕ). bit_or b 0x400 % 64) whole
    ∙ omega (arith, ap (λ (b : ℕ). b % 64) split, or-zero (a % 64))

and-ones_low : (a m : ℕ) → bit_and a (m * 64 + 63) % 64 ≡ a % 64
and-ones_low a m =
    let split = and_split 6 (a / 64) (a % 64) m 63 (omega arith) (omega arith) in
    let low = and_ones_low 6 (a % 64) (omega arith) in
    let whole : a / 64 * 64 + a % 64 ≡ a = omega arith in
    ap (λ (b : ℕ). bit_and b (m * 64 + 63) % 64) (sym whole) ∙ omega (arith, split, low)

overrun-low :
    (b : Bool) (a w : ℕ)
    → a % 64 ≡ w % 64
    → (if b then bit_or a 0x400 else bit_and a (2 ^ 32 - 1 - 0x400)) % 64 ≡ w % 64
overrun-low true a w h = or-overrun a ∙ h
overrun-low false a w h = and-ones_low a 67108847 ∙ h

write-low :
    (b : Bool) (rval a w : ℕ)
    → a % 64 ≡ w % 64
    → (if b then bit_and rval 0x7ff else a) % 64 ≡ (if b then rval else w) % 64
write-low true rval a w h = and-ones_low rval 31
write-low false rval a w h = h

-- But for the overrun, the raw status is the word that was written last.
reachable-low : (w : ℕ) (u : Uart) → IsReachable w u → u.uart_ris % 64 ≡ w % 64
unfolding reset_uart prime_receive advance_clock set_clock
reachable-low _ _ (start u) = refl
reachable-low w _ (reads {u = u} pa size r) =
    ap (λ (v : ℕ). v % 64) (read-ris pa size u) ∙ reachable-low w u r
reachable-low _ _ (writes {w = w} {u = u} pa rval size r) =
    ap (λ (v : ℕ). v % 64) (write-ris pa rval size u)
    ∙ write-low ((size == 4) && is_ticr (register_index pa)) rval u.uart_ris w (reachable-low w u r)
reachable-low w _ (transmits {u = u} r) =
    ap (λ (v : ℕ). v % 64) (transmit-ris u) ∙ reachable-low w u r
reachable-low w _ (receives {u = u} input r) =
    ap (λ (v : ℕ). v % 64) (receive-ris input u)
    ∙ overrun-low (full u.receive_queue) u.uart_ris w (reachable-low w u r)
reachable-low w _ (primes {u = u} nc r) = reachable-low w u r
reachable-low w _ (ticks {u = u} r) = reachable-low w u r
reachable-low w _ (sets_clock {u = u} clock interval r) = reachable-low w u r

and-small : (a m : ℕ) → m < 64 → bit_and a m ≡ bit_and (a % 64) m
and-small a m h =
    let split = and_split 6 (a / 64) (a % 64) 0 m (omega arith) h in
    let whole : a ≡ a / 64 * 2 ^ 6 + a % 64 = omega arith in
    let mask : m ≡ 0 * 2 ^ 6 + m = omega arith in
    let none = and-zero (a / 64) in
    ap (λ (b : ℕ). bit_and b m) whole
    ∙ ap (bit_and (a / 64 * 2 ^ 6 + a % 64)) mask
    ∙ split
    ∙ omega (arith, none)

summed :
    (overrun transmits receives : Bool)
    → (let first = if overrun then bit_or 0 1 else 0 in
        let second = if transmits then bit_or first 2 else first in
        if receives then bit_or second 4 else second)
      ≡ (if overrun then 1 else 0) + ((if transmits then 2 else 0) + (if receives then 4 else 0))
summed true true true = refl
summed true true false = refl
summed true false true = refl
summed true false false = refl
summed false true true = refl
summed false true false = refl
summed false false true = refl
summed false false false = refl

is_pending-low :
    (bit w : ℕ) (u : Uart)
    → bit < 64
    → u.uart_ris % 64 ≡ w % 64
    → is_pending bit u ≡ is_pending bit (record u { uart_ris = w })
unfolding is_pending
is_pending-low bit w u h low =
    let same : bit_and u.uart_ris bit ≡ bit_and w bit =
      and-small u.uart_ris bit h ∙ ap (λ (a : ℕ). bit_and a bit) low ∙ sym (and-small w bit h) in
    ap (λ (a : ℕ). (bit_and u.uart_imsc bit == 0) && (a != 0)) same

-- In every reachable state, the UART raises no interrupt but the overrun: the transmit and the
-- receive interrupt are pending just where they are unmasked and the word that the program last
-- wrote to the register that clears interrupts has their bits, so never before such a write.
pub pending_interrupts-IsReachable :
    (w : ℕ) (u : Uart)
    → IsReachable w u
    → pending_interrupts u
      ≡ (if is_pending 0x400 u then 1 else 0)
        + ((if is_pending 0x020 (record u { uart_ris = w }) then 2 else 0)
            + (if is_pending 0x010 (record u { uart_ris = w }) then 4 else 0))
unfolding pending_interrupts
pending_interrupts-IsReachable w u reached =
    let low = reachable-low w u reached in
    summed (is_pending 0x400 u) (is_pending 0x020 u) (is_pending 0x010 u)
    ∙ ap
        (λ (b : Bool).
          (if is_pending 0x400 u then 1 else 0)
          + ((if b then 2 else 0) + (if is_pending 0x010 u then 4 else 0)))
        (is_pending-low 0x020 w u (omega arith) low)
    ∙ ap
        (λ (b : Bool).
          (if is_pending 0x400 u then 1 else 0)
          + ((if is_pending 0x020 (record u { uart_ris = w }) then 2 else 0)
              + (if b then 4 else 0)))
        (is_pending-low 0x010 w u (omega arith) low)
