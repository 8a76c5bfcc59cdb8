-- ===== src/Device/Uart/Tests.antt =====
-- The theorems on the UART, after its reset.
use dimebox.Common.{false, ◌≡◌, some, none, [], ◌∷◌}
use dimebox.Device.Queue.{reset, full}
use dimebox.Device.QueueLaws.{waiting}
use dimebox.Device.Uart.{Uart, reset_uart, register_index}
use dimebox.Device.Uart as Uart
use dimebox.Device.Uart.Ports.{read_register, write_register, write}
use dimebox.Device.Uart.Lines.{transmit, receive, pending_interrupts, is_pending}
use dimebox.Device.Uart.Laws.{receive-refines, transmit-refines}
use dimebox.Device.Uart.Interrupts.{start, writes, receives, pending_interrupts-IsReachable}

-- One of whatever state, and one after a reset.
abbrev blank : Uart
unfolding reset
blank = record {
  base_address = 0;
  extent = 0;
  is_implemented = false;
  transmit_queue = reset;
  receive_queue = reset;
  uart_dr = 0;
  uart_rsr = 0;
  uart_fr = 0;
  uart_ilpr = 0;
  uart_ibrd = 0;
  uart_fbrd = 0;
  uart_lcr_h = 0;
  uart_tcr = 0;
  uart_ifls = 0;
  uart_imsc = 0;
  uart_ris = 0;
  uart_mis = 0;
  uart_dmacr = 0;
  periph_id0 = 0;
  periph_id1 = 0;
  periph_id2 = 0;
  periph_id3 = 0;
  cell_id0 = 0;
  cell_id1 = 0;
  cell_id2 = 0;
  cell_id3 = 0;
  clock = 0;
  clock_advance_interval = 0;
}

abbrev uart : Uart
unfolding reset_uart
uart = reset_uart blank

receive-refines_example :
    (waiting (receive (some 65) uart).receive_queue ≡ 65 ∷ [])
    × (((read_register Uart.dr uart).1.0 ≡ 0)
        × ((waiting (read_register Uart.dr uart).1.1.receive_queue ≡ [])
            × ((receive (some 65) uart).transmit_queue ≡ uart.transmit_queue)))
unfolding uart blank full
receive-refines_example = receive-refines (some 65) uart

transmit-refines_example :
    (waiting (write_register Uart.dr 65 uart).1.transmit_queue ≡ 65 ∷ [])
    × (((transmit uart).0 ≡ none)
        × ((waiting (transmit uart).1.transmit_queue ≡ [])
            × ((transmit uart).1.receive_queue ≡ uart.receive_queue)))
unfolding uart blank full
transmit-refines_example = transmit-refines 65 uart

-- A program that writes the bits of the transmit and the receive interrupt, to clear them.
abbrev cleared : Uart
cleared = (write 0x44 0x30 4 (receive (some 65) uart)).1

pending_interrupts-IsReachable_example : pending_interrupts cleared ≡ 6
unfolding uart is_pending receive write write_register register_index full reset_uart
pending_interrupts-IsReachable_example =
    pending_interrupts-IsReachable 0x30 cleared
      (writes 0x44 0x30 4 (receives (some 65) (start blank)))
