-- ===== src/Device/Uart/Ports.antt =====
-- Read, Write and UpdateStatus of UART_pl011 (src/uart_pl011.C). A read gives its return code, with
-- 2 ^ 32 - 1 for -1, and what it stores, if it stores anything.
use dimebox.Common.{
  ℕ, Bool, ◌-◌, ◌^◌, bit_and, bit_or, ◌<<<◌, ◌>>>◌, ◌==◌, ◌!=◌, u8, if◌then◌else◌, Option, none,
  some,
}
use dimebox.Device.Queue.{empty, full, get_char, put_char, set_fifo_enable, select_threshhold}
use dimebox.Device.Uart.{Uart, Register, register_index}
use dimebox.Device.Uart as Uart

abbrev pub failed : ℕ
failed = 2 ^ 32 - 1

abbrev flag : Bool → ℕ
flag b = if b then 1 else 0

-- The four lines of the modem are up, and the UART is never busy.
unfoldable pub update_status : Uart → Uart
unfolding empty full
update_status u = record u {
  uart_fr =
      bit_or
        (bit_or
          (bit_or
            (bit_or (bit_or (1 <<< 8) (flag (empty u.transmit_queue) <<< 7))
              (flag (full u.receive_queue) <<< 6))
            (flag (full u.transmit_queue) <<< 5))
          (flag (empty u.receive_queue) <<< 4))
        (bit_or (0 <<< 3) (bit_or (1 <<< 2) (bit_or (1 <<< 1) 1)));
}

-- GetChar of the receive queue, where a character is waiting.
unfoldable pub read_dr : Uart → ℕ × Uart
unfolding empty get_char
read_dr u =
    let (c, rest) = get_char u.receive_queue in
    if empty u.receive_queue
    then (0, u)
    else (elim c [ none ↦ 0 | some x ↦ x ], record u { receive_queue = rest })

-- A read of a register: the return code, the value, and the UART.
unfoldable pub read_register : Register → Uart → ℕ × (ℕ × Uart)
unfolding read_dr update_status
read_register Uart.dr u = (0, read_dr u)
read_register Uart.rsr u = (0, (u.uart_rsr, u))
read_register Uart.fr u = (0, ((update_status u).uart_fr, update_status u))
read_register Uart.ilpr u = (0, (u.uart_ilpr, u))
read_register Uart.ibrd u = (0, (0x24, u))
read_register Uart.fbrd u = (0, (0x28, u))
read_register Uart.lcr_h u = (0, (u.uart_lcr_h, u))
read_register Uart.tcr u = (0, (u.uart_tcr, u))
read_register Uart.ifls u = (0, (u.uart_ifls, u))
read_register Uart.imsc u = (0, (u.uart_imsc, u))
read_register Uart.tris u = (0, (u.uart_ris, u))
read_register Uart.tmis u = (0, (0, u))
read_register Uart.ticr u = (0, (0, u))
read_register Uart.tdmacr u = (0, (0, u))
read_register Uart.pid0 u = (0, (u.periph_id0, u))
read_register Uart.pid1 u = (0, (u.periph_id1, u))
read_register Uart.pid2 u = (0, (u.periph_id2, u))
read_register Uart.pid3 u = (0, (u.periph_id3, u))
read_register Uart.cid0 u = (0, (u.cell_id0, u))
read_register Uart.cid1 u = (0, (u.cell_id1, u))
read_register Uart.cid2 u = (0, (u.cell_id2, u))
read_register Uart.cid3 u = (0, (u.cell_id3, u))
read_register Uart.uart_reserved u = (failed, (0, u))

-- Only words are accessed.
unfoldable pub read : ℕ → ℕ → Uart → ℕ × (Option ℕ × Uart)
unfolding register_index read_register
read pa access_size u =
    let (rcode, (rval, after)) = read_register (register_index pa) u in
    if access_size != 4 then (failed, (none, u)) else (rcode, (some rval, after))

unfoldable pub write_lcr_h : ℕ → Uart → Uart
unfolding set_fifo_enable
write_lcr_h rval u =
    let value = bit_and rval 0xff in
    let fen = bit_and (value >>> 4) 1 == 1 in
    record u {
      uart_lcr_h = value;
      receive_queue = set_fifo_enable fen u.receive_queue;
      transmit_queue = set_fifo_enable fen u.transmit_queue;
    }

unfoldable pub write_ifls : ℕ → Uart → Uart
unfolding select_threshhold
write_ifls rval u =
    let value = bit_and rval 0x3f in
    record u {
      uart_ifls = value;
      receive_queue = select_threshhold (bit_and (value >>> 3) 0x7) u.receive_queue;
      transmit_queue = select_threshhold (bit_and value 0x7) u.transmit_queue;
    }

unfoldable pub write_register : Register → ℕ → Uart → ℕ × Uart
unfolding put_char write_lcr_h write_ifls
write_register Uart.dr rval u =
    (0, record u { transmit_queue = (put_char (u8 rval) u.transmit_queue).1 })
write_register Uart.rsr rval u = (0, record u { uart_rsr = 0 })
write_register Uart.ilpr rval u = (0, record u { uart_ilpr = bit_and rval 0xff })
write_register Uart.ibrd rval u = (0, record u { uart_ibrd = bit_and rval 0xffff })
write_register Uart.fbrd rval u = (0, record u { uart_fbrd = bit_and rval 0x1f })
write_register Uart.lcr_h rval u = (0, write_lcr_h rval u)
write_register Uart.tcr rval u = (0, record u { uart_tcr = bit_and rval 0xffff })
write_register Uart.ifls rval u = (0, write_ifls rval u)
write_register Uart.imsc rval u = (0, record u { uart_imsc = bit_and rval 0x7ff })
write_register Uart.ticr rval u = (0, record u { uart_ris = bit_and rval 0x7ff })
write_register Uart.tdmacr rval u = (0, record u { uart_dmacr = bit_and rval 0x3 })
write_register Uart.uart_reserved rval u = (failed, u)
write_register _ rval u = (0, u)

unfoldable pub write : ℕ → ℕ → ℕ → Uart → ℕ × Uart
unfolding register_index write_register
write pa rval access_size u =
    if access_size != 4 then (failed, u) else write_register (register_index pa) rval u
