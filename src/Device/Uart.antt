-- ===== src/Device/Uart.antt =====
-- UART_pl011: include/uart_pl011.h, src/uart_pl011.C, on the two queues of the class uart
-- (include/uart.h, src/uart.C). The terminal that it writes to and reads from is outside: a transmit
-- gives the character that is written, a receive takes the one that is waiting, if any.
pub mod Ports
pub mod Lines
pub mod Laws
pub mod Interrupts
pub mod Tests
use Prim.Native.String.{String}
use dimebox.Common.{
  ℕ, Bool, true, false, ◌+◌, bit_and, bit_or, ◌>>>◌, ◌==◌, leb, ◌&&◌, u64, u8, if◌then◌else◌,
}
use dimebox.Device.Queue.{UartQueue, reset}

-- The registers, with the value of a reserved or misaligned address.
pub data Register : Type 0 where
  dr rsr fr ilpr ibrd fbrd lcr_h tcr ifls imsc tris tmis ticr tdmacr : Register
  pid0 pid1 pid2 pid3 cid0 cid1 cid2 cid3 uart_reserved : Register

pub record Uart : Type 0 where
  pub base_address : ℕ
  pub extent : ℕ
  pub is_implemented : Bool
  pub transmit_queue : UartQueue
  pub receive_queue : UartQueue
  pub uart_dr : ℕ
  pub uart_rsr : ℕ
  pub uart_fr : ℕ
  pub uart_ilpr : ℕ
  pub uart_ibrd : ℕ
  pub uart_fbrd : ℕ
  pub uart_lcr_h : ℕ
  pub uart_tcr : ℕ
  pub uart_ifls : ℕ
  pub uart_imsc : ℕ
  pub uart_ris : ℕ
  pub uart_mis : ℕ
  pub uart_dmacr : ℕ
  pub periph_id0 : ℕ
  pub periph_id1 : ℕ
  pub periph_id2 : ℕ
  pub periph_id3 : ℕ
  pub cell_id0 : ℕ
  pub cell_id1 : ℕ
  pub cell_id2 : ℕ
  pub cell_id3 : ℕ
  pub clock : ℕ
  pub clock_advance_interval : ℕ

unfoldable pub reset_uart : Uart → Uart
unfolding reset
reset_uart u = record u {
  transmit_queue = reset;
  receive_queue = reset;
  uart_dr = 0;
  uart_rsr = 0;
  uart_fr = 0x110;
  uart_ilpr = 0;
  uart_ibrd = 0;
  uart_fbrd = 0;
  uart_lcr_h = 0;
  uart_tcr = 0x300;
  uart_ifls = 0x12;
  uart_imsc = 0;
  uart_ris = 0;
  uart_mis = 0;
  uart_dmacr = 0;
  periph_id0 = 0x11;
  periph_id1 = 0x10;
  periph_id2 = 0x24;
  periph_id3 = 0x00;
  cell_id0 = 0x0d;
  cell_id1 = 0xf0;
  cell_id2 = 0x05;
  cell_id3 = 0xb1;
  clock = 0;
  clock_advance_interval = 10000;
}

unfoldable pub map_device : ℕ → ℕ → Uart → Uart
unfolding reset_uart
map_device base_address extent u =
    reset_uart (record u { base_address = base_address; extent = extent; is_implemented = true })

unfoldable pub in_range : ℕ → Uart → Bool
in_range pa u = leb u.base_address pa && leb pa (u64 (u.base_address + 0xffc))

unfoldable pub advance_clock : Uart → Uart
advance_clock u = record u { clock = u64 (u.clock + u.clock_advance_interval) }

unfoldable pub set_clock : ℕ → ℕ → Uart → Uart
set_clock clock clock_advance_interval u = record u {
  clock = clock;
  clock_advance_interval = clock_advance_interval;
}

-- The registers up to 0x48, by the lowest 12 bits of the address.
unfoldable low_register : ℕ → Register
low_register low =
    if low == 0x000
    then dr
    else if low == 0x004
    then rsr
    else if low == 0x018
    then fr
    else if low == 0x020
    then ilpr
    else if low == 0x024
    then ibrd
    else if low == 0x028
    then fbrd
    else if low == 0x02c
    then lcr_h
    else if low == 0x030
    then tcr
    else if low == 0x034
    then ifls
    else if low == 0x038
    then imsc
    else if low == 0x03c
    then tris
    else if low == 0x040
    then tmis
    else if low == 0x044
    then ticr
    else if low == 0x048
    then tdmacr
    else uart_reserved

unfoldable id_register : ℕ → Register
id_register low =
    if low == 0xfe0
    then pid0
    else if low == 0xfe4
    then pid1
    else if low == 0xfe8
    then pid2
    else if low == 0xfec
    then pid3
    else if low == 0xff0
    then cid0
    else if low == 0xff4
    then cid1
    else if low == 0xff8
    then cid2
    else if low == 0xffc
    then cid3
    else uart_reserved

unfoldable pub register_index : ℕ → Register
unfolding low_register id_register
register_index pa =
    let low = bit_and pa 0xfff in if leb 0xfe0 low then id_register low else low_register low

unfoldable pub is_mapped : ℕ → Bool
unfolding register_index
is_mapped pa = elim (register_index pa) [ uart_reserved ↦ false | _ ↦ true ]

unfoldable name_of : Register → String
name_of dr = "UART_DR"
name_of rsr = "UART_RSR"
name_of fr = "UART_FR"
name_of ilpr = "UART_ILPR"
name_of ibrd = "UART_IBRD"
name_of fbrd = "UART_FBRD"
name_of lcr_h = "UART_LCR_H"
name_of tcr = "UART_TCR"
name_of ifls = "UART_IFLS"
name_of imsc = "UART_IMSC"
name_of tris = "UART_TRIS"
name_of tmis = "UART_TMIS"
name_of ticr = "UART_TICR"
name_of tdmacr = "UART_TDMACR"
name_of pid0 = "UART_PID0"
name_of pid1 = "UART_PID1"
name_of pid2 = "UART_PID2"
name_of pid3 = "UART_PID3"
name_of cid0 = "UART_CID0"
name_of cid1 = "UART_CID1"
name_of cid2 = "UART_CID2"
name_of cid3 = "UART_CID3"
name_of uart_reserved = "?"

unfoldable register_name : ℕ → String
unfolding register_index name_of
register_name pa = name_of (register_index pa)
