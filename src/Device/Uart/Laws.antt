-- ===== src/Device/Uart/Laws.antt =====
-- The two lines of the UART as lists of characters, and its interrupts over every sequence of
-- operations (src/uart.C, src/uart_pl011.C).
use dimebox.Common.{
  ℕ, Bool, true, false, ◌≡◌, refl, arith, ◌==◌, ◌||◌, u8, if◌then◌else◌, Option, none, some, List,
  [], ◌∷◌, ◌++◌,
}
use dimebox.Device.Queue.{UartQueue, full, empty, get_char, get_fifo_char, put_char, is_nil}
use dimebox.Device.QueueLaws.{waiting}
use dimebox.Device.Uart.{Uart, Register, reset_uart, register_index}
use dimebox.Device.Uart as Uart
use dimebox.Device.Uart.Ports.{read_register, write_register, read_dr}
use dimebox.Device.Uart.Lines.{
  transmit, receive, queue_up, set_overrun, set_transmit_interrupt, set_receive_interrupt,
}

abbrev pub first : List ℕ → Option ℕ
first [] = none
first (c ∷ cs) = some c

abbrev pub rest : List ℕ → List ℕ
rest [] = []
rest (c ∷ cs) = cs

-- The character that is there to be received: zero stands for none.
abbrev input_code : Option ℕ → ℕ
input_code none = 0
input_code (some c) = u8 c

abbrev or_zero : Option ℕ → ℕ
or_zero none = 0
or_zero (some c) = c

abbrev queue_of : List ℕ → ℕ → Bool → Bool → ℕ → UartQueue
queue_of fifo threshhold enabled primed character = record {
  fifo = fifo;
  threshhold = threshhold;
  fifo_enabled = enabled;
  holding_register_primed = primed;
  holding_register = character;
}

-- What a queue gives and keeps, whichever of its two stores is in use.
abbrev Gives : UartQueue → Type 0
Gives q =
    ((get_char q).0 ≡ first (waiting q))
    × ((waiting (get_char q).1 ≡ rest (waiting q)) × (empty q ≡ is_nil (waiting q)))

queue_of-Gives :
    (fifo : List ℕ) (threshhold : ℕ) (enabled primed : Bool) (character : ℕ)
    → Gives (queue_of fifo threshhold enabled primed character)
unfolding get_char get_fifo_char empty is_nil
queue_of-Gives [] threshhold true primed character = (refl, (refl, refl))
queue_of-Gives (c ∷ cs) threshhold true primed character = (refl, (refl, refl))
queue_of-Gives fifo threshhold false true character = (refl, (refl, refl))
queue_of-Gives fifo threshhold false false character = (refl, (refl, refl))

gives : (q : UartQueue) → Gives q
gives q =
    queue_of-Gives q.fifo q.threshhold q.fifo_enabled q.holding_register_primed q.holding_register

-- What a queue keeps of a character: a full FIFO drops it, and a holding register is overwritten.
abbrev pub kept : ℕ → UartQueue → List ℕ
kept c q = if q.fifo_enabled then if full q then waiting q else waiting q ++ c ∷ [] else c ∷ []

put_char-waiting : (c : ℕ) (q : UartQueue) → waiting (put_char c q).1 ≡ kept c q
unfolding put_char full
put_char-waiting c q = ground arith

-- Receive: the character joins those that wait, unless there is none or no room for it.
receive-waiting :
    (input : Option ℕ) (u : Uart)
    → waiting (receive input u).receive_queue ≡ (
        if full u.receive_queue || (input_code input == 0)
        then waiting u.receive_queue
        else waiting u.receive_queue ++ input_code input ∷ [])
unfolding receive queue_up set_overrun put_char full set_receive_interrupt
receive-waiting none u = ground arith
receive-waiting (some c) u = ground arith

abbrev sent_fields : List ℕ → ℕ → Bool → Bool → ℕ → Uart → Uart
sent_fields fifo threshhold enabled primed character u = record u {
  transmit_queue = queue_of fifo threshhold enabled primed character;
}

abbrev Transmits : Uart → Type 0
Transmits u =
    ((transmit u).0 ≡ first (waiting u.transmit_queue))
    × (waiting (transmit u).1.transmit_queue ≡ rest (waiting u.transmit_queue))

sent_fields-Transmits :
    (fifo : List ℕ) (threshhold : ℕ) (enabled primed : Bool) (character : ℕ) (u : Uart)
    → Transmits (sent_fields fifo threshhold enabled primed character u)
unfolding transmit get_char get_fifo_char set_transmit_interrupt
sent_fields-Transmits [] threshhold true primed character u = (refl, refl)
sent_fields-Transmits (c ∷ cs) threshhold true primed character u = (refl, ground arith)
sent_fields-Transmits fifo threshhold false true character u = (refl, ground arith)
sent_fields-Transmits fifo threshhold false false character u = (refl, refl)

transmits : (u : Uart) → Transmits u
transmits u =
    let q = u.transmit_queue in
    sent_fields-Transmits q.fifo q.threshhold q.fifo_enabled q.holding_register_primed
      q.holding_register u

abbrev Reads : Uart → Type 0
Reads u =
    ((read_dr u).0 ≡ or_zero (first (waiting u.receive_queue)))
    × (waiting (read_dr u).1.receive_queue ≡ rest (waiting u.receive_queue))

queue_of-Reads :
    (fifo : List ℕ) (threshhold : ℕ) (enabled primed : Bool) (character : ℕ) (u : Uart)
    → Reads (record u { receive_queue = queue_of fifo threshhold enabled primed character })
unfolding read_dr get_char get_fifo_char empty is_nil
queue_of-Reads [] threshhold true primed character u = (refl, refl)
queue_of-Reads (c ∷ cs) threshhold true primed character u = (refl, refl)
queue_of-Reads fifo threshhold false true character u = (refl, refl)
queue_of-Reads fifo threshhold false false character u = (refl, refl)

reads : (u : Uart) → Reads u
reads u =
    let q = u.receive_queue in
    queue_of-Reads q.fifo q.threshhold q.fifo_enabled q.holding_register_primed q.holding_register u

-- The receive line is a list of characters: a receive adds the one of the terminal at its end, unless
-- there is none, it is zero or the queue is full; a read of the data register gives the first one, or
-- 0 where none waits, and takes it off; the transmit line is not changed.
pub receive-refines :
    (input : Option ℕ) (u : Uart)
    → (waiting (receive input u).receive_queue ≡ (
        if full u.receive_queue || (input_code input == 0)
        then waiting u.receive_queue
        else waiting u.receive_queue ++ input_code input ∷ []))
      × (((read_register Uart.dr u).1.0 ≡ or_zero (first (waiting u.receive_queue)))
          × ((waiting (read_register Uart.dr u).1.1.receive_queue ≡ rest (waiting u.receive_queue))
              × ((receive input u).transmit_queue ≡ u.transmit_queue)))
unfolding read_register receive queue_up set_overrun set_receive_interrupt
receive-refines input u =
    let (value, left) = reads u in (receive-waiting input u, (value, (left, ground arith)))

-- So is the transmit line: a write of the data register adds the lowest 8 bits at its end, where a
-- full FIFO drops them and a holding register is overwritten; a transmit gives the first one, if any
-- waits, and takes it off; the receive line is not changed.
pub transmit-refines :
    (rval : ℕ) (u : Uart)
    → (waiting (write_register Uart.dr rval u).1.transmit_queue ≡ kept (u8 rval) u.transmit_queue)
      × (((transmit u).0 ≡ first (waiting u.transmit_queue))
          × ((waiting (transmit u).1.transmit_queue ≡ rest (waiting u.transmit_queue))
              × ((transmit u).1.receive_queue ≡ u.receive_queue)))
unfolding write_register transmit set_transmit_interrupt
transmit-refines rval u =
    let (value, left) = transmits u in
    (put_char-waiting (u8 rval) u.transmit_queue, (value, (left, ground arith)))
