-- ===== src/Device/Queue.antt =====
-- uart_queue of include/uart.h: a queue of 16 characters, or one holding register.
use dimebox.Common.{
  ℕ, suc, Bool, true, false, not, ◌==◌, leb, if◌then◌else◌, Option, none, some, List, [], ◌∷◌, ◌++◌,
}

abbrev pub configured_size : ℕ
configured_size = 16

-- The number of characters, as a number that compares with sizes.
abbrev pub length : {A : Type 0} → List A → ℕ
length [] = 0
length (x ∷ xs) = suc (length xs)

pub record UartQueue : Type 0 where
  pub fifo : List ℕ
  pub threshhold : ℕ
  pub fifo_enabled : Bool
  pub holding_register_primed : Bool
  pub holding_register : ℕ

unfoldable pub reset : UartQueue
reset = record {
  fifo = [];
  threshhold = configured_size;
  fifo_enabled = false;
  holding_register_primed = false;
  holding_register = 0;
}

unfoldable pub set_fifo_enable : Bool → UartQueue → UartQueue
set_fifo_enable enable q = record q { fifo_enabled = enable }

unfoldable pub threshhold_of : ℕ → ℕ
threshhold_of select =
    if select == 0
    then 2
    else if select == 1
    then 4
    else if select == 2
    then 8
    else if select == 3
    then 12
    else if select == 4
    then 14
    else configured_size

unfoldable pub select_threshhold : ℕ → UartQueue → UartQueue
unfolding threshhold_of
select_threshhold select q = record q { threshhold = threshhold_of select }

-- After a character was taken.
unfoldable pub below_threshhold : UartQueue → Bool
below_threshhold q =
    if q.fifo_enabled then leb (length q.fifo) q.threshhold else not q.holding_register_primed

-- After a character was added.
unfoldable pub above_threshhold : UartQueue → Bool
above_threshhold q =
    if q.fifo_enabled then leb q.threshhold (length q.fifo) else q.holding_register_primed

unfoldable pub full : UartQueue → Bool
full q = if q.fifo_enabled then leb configured_size (length q.fifo) else q.holding_register_primed

unfoldable pub is_nil : List ℕ → Bool
is_nil [] = true
is_nil (c ∷ cs) = false

unfoldable pub empty : UartQueue → Bool
unfolding is_nil
empty q = if q.fifo_enabled then is_nil q.fifo else not q.holding_register_primed

-- get_fifo_char: the front, and the queue without it.
unfoldable pub get_fifo_char : List ℕ → Option (ℕ × List ℕ)
get_fifo_char [] = none
get_fifo_char (c ∷ cs) = some (c, cs)

-- The character is given if there is one.
unfoldable pub get_char : UartQueue → Option ℕ × UartQueue
unfolding get_fifo_char
get_char q =
    if q.fifo_enabled
    then elim (get_fifo_char q.fifo) [
      | none ↦ (none, q)
      | some (c, rest) ↦ (some c, record q { fifo = rest })
    ]
    else if q.holding_register_primed
    then (some q.holding_register, record q { holding_register_primed = false })
    else (none, q)

-- Whether the character was taken, and the queue. The holding register is overwritten.
unfoldable pub put_char : ℕ → UartQueue → Bool × UartQueue
put_char c q =
    if q.fifo_enabled
    then (if leb configured_size (length q.fifo)
        then (false, q)
        else (true, record q { fifo = q.fifo ++ c ∷ [] }))
    else (true, record q { holding_register = c; holding_register_primed = true })
