-- ===== src/Device/Uart/Lines.antt =====
-- Transmit and Receive of the class uart (src/uart.C), and the interrupts of UART_pl011
-- (include/uart_pl011.h, src/uart_pl011.C).
use dimebox.Common.{
  ℕ, Bool, true, false, ◌-◌, ◌^◌, bit_and, bit_or, ◌==◌, ◌!=◌, ◌&&◌, u8, if◌then◌else◌, Option,
  none, some,
}
use dimebox.Device.Queue.{full, get_char, put_char, below_threshhold, above_threshhold}
use dimebox.Device.Uart.{Uart}

-- The mask of a single bit as an `unsigned int`.
abbrev clear_bits : ℕ → ℕ → ℕ
clear_bits mask w = bit_and w (2 ^ 32 - 1 - mask)

unfoldable pub set_overrun : Bool → Uart → Uart
set_overrun true u = record u {
  uart_rsr = bit_or u.uart_rsr 0x8;
  uart_ris = bit_or u.uart_ris 0x400;
}
set_overrun false u = record u {
  uart_rsr = clear_bits 0x8 u.uart_rsr;
  uart_ris = clear_bits 0x400 u.uart_ris;
}

-- Both have no effect.
unfoldable pub set_transmit_interrupt : Uart → Uart
set_transmit_interrupt u = u

unfoldable pub set_receive_interrupt : Uart → Uart
set_receive_interrupt u = u

-- The character that is written, if one was waiting.
unfoldable pub transmit : Uart → Option ℕ × Uart
unfolding get_char below_threshhold set_transmit_interrupt
transmit u =
    let (c, rest) = get_char u.transmit_queue in
    let after = record u { transmit_queue = rest } in
    elim c [
      | none ↦ (none, u)
      | some nc ↦ (some nc, if below_threshhold rest then set_transmit_interrupt after else after)
    ]

-- A character from the terminal: one that is zero, as when there is none, is ignored.
unfoldable pub queue_up : ℕ → Uart → Uart
unfolding put_char above_threshhold set_receive_interrupt
queue_up nc u =
    let queue = (put_char nc u.receive_queue).1 in
    let after = record u { receive_queue = queue } in
    if nc == 0 then u else if above_threshhold queue then set_receive_interrupt after else after

unfoldable pub receive : Option ℕ → Uart → Uart
unfolding full set_overrun queue_up
receive input u =
    let nc : ℕ = elim input [ none ↦ 0 | some c ↦ u8 c ] in
    if full u.receive_queue then set_overrun true u else queue_up nc (set_overrun false u)

unfoldable service_ios : Option ℕ → Uart → Option ℕ × Uart
unfolding transmit receive
service_ios input u = let (output, after) = transmit u in (output, receive input after)

unfoldable pub prime_receive : ℕ → Uart → Uart
unfolding put_char
prime_receive nc u = record u { receive_queue = (put_char nc u.receive_queue).1 }

-- An interrupt is enabled if it is not masked.
unfoldable pub is_pending : ℕ → Uart → Bool
is_pending bit u = (bit_and u.uart_imsc bit == 0) && (bit_and u.uart_ris bit != 0)

-- UART_OVERRUN, UART_TRANSMIT and UART_RECEIVE, as bits.
unfoldable pub pending_interrupts : Uart → ℕ
unfolding is_pending
pending_interrupts u =
    let overrun = if is_pending 0x400 u then bit_or 0 1 else 0 in
    let transmits = if is_pending 0x020 u then bit_or overrun 2 else overrun in
    if is_pending 0x010 u then bit_or transmits 4 else transmits

unfoldable pub interrupt_pending : Uart → Bool
unfolding pending_interrupts
interrupt_pending u = pending_interrupts u != 0
