-- ===== src/Device/QueueLaws.antt =====
-- The characters that wait in the queue of a UART (include/uart.h).
use dimebox.Common.{
  ℕ, zero, suc, Bool, true, false, ◌+◌, ◌≤◌, ◌≡◌, refl, sym, ap, arith, ◌∙◌, leb, if◌then◌else◌,
  none, some, List, [], ◌∷◌, ◌++◌, if-elim,
}
use mathlib.Core.List.{append-nil, append_assoc}
use dimebox.Device.Queue.{
  UartQueue, configured_size, length, empty, get_char, put_char, get_fifo_char,
}

-- What is waiting in a queue.
abbrev pub waiting : UartQueue → List ℕ
waiting q =
    if q.fifo_enabled
    then q.fifo
    else if q.holding_register_primed
    then q.holding_register ∷ []
    else []

-- The characters of a list are put one after the other.
abbrev pub put_all : List ℕ → UartQueue → UartQueue
put_all [] q = q
put_all (c ∷ cs) q = put_all cs (put_char c q).1

-- `n` characters are taken; those that were there.
abbrev pub get_all : ℕ → UartQueue → List ℕ
get_all zero q = []
get_all (suc n) q = let (c, rest) = get_char q in elim c [ none ↦ [] | some x ↦ x ∷ get_all n rest ]

abbrev with_fifo : UartQueue → List ℕ → UartQueue
with_fifo q fifo = record q { fifo_enabled = true; fifo = fifo }

length-snoc : (xs : List ℕ) (c : ℕ) → length (xs ++ c ∷ []) ≡ suc (length xs)
length-snoc [] c = refl
length-snoc (x ∷ xs) c = ap suc (length-snoc xs c)

put_all-room :
    (cs : List ℕ) (c : ℕ) (fifo : List ℕ) (q : UartQueue)
    → leb configured_size (length fifo) ≡ false
    → put_all (c ∷ cs) (with_fifo q fifo) ≡ put_all cs (with_fifo q (fifo ++ c ∷ []))
unfolding put_char
put_all-room cs c fifo q room = rw room refl

put_all-fifo :
    (cs fifo : List ℕ) (q : UartQueue)
    → length fifo + length cs ≤ 16
    → put_all cs (with_fifo q fifo) ≡ with_fifo q (fifo ++ cs)
put_all-fifo [] fifo q h = ap (with_fifo q) (sym (append-nil fifo))
put_all-fifo (c ∷ cs) fifo q h =
    let room : leb configured_size (length fifo) ≡ false = ground arith in
    put_all-room cs c fifo q room
    ∙ put_all-fifo cs (fifo ++ c ∷ []) q (omega (arith, length-snoc fifo c))
    ∙ ap (with_fifo q) (append_assoc fifo (c ∷ []) cs)

get_all-fifo : (fifo : List ℕ) (q : UartQueue) → get_all (length fifo) (with_fifo q fifo) ≡ fifo
unfolding get_char get_fifo_char
get_all-fifo [] q = refl
get_all-fifo (c ∷ cs) q = ap (λ t. c ∷ t) (get_all-fifo cs q)

-- With the FIFO enabled, characters that there is room for come out after those that were waiting,
-- in the order in which they were put.
get_all-put_all :
    (cs : List ℕ) (q : UartQueue)
    → q.fifo_enabled ≡ true
    → length (waiting q) + length cs ≤ 16
    → get_all (length (waiting q ++ cs)) (put_all cs q) ≡ waiting q ++ cs
get_all-put_all cs q enabled room =
    let fifo : waiting q ≡ q.fifo = rw enabled refl in
    let same : q ≡ with_fifo q q.fifo = ap (λ e. record q { fifo_enabled = e }) enabled in
    let space : length q.fifo + length cs ≤ 16 = omega (arith, room, ap length fifo) in
    ap (λ w. get_all (length (w ++ cs)) (put_all cs q)) fifo
    ∙ ap (λ p. get_all (length (q.fifo ++ cs)) (put_all cs p)) same
    ∙ ap (get_all (length (q.fifo ++ cs))) (put_all-fifo cs q.fifo q space)
    ∙ get_all-fifo (q.fifo ++ cs) q
    ∙ ap (λ w. w ++ cs) (sym fifo)

-- Without the FIFO a character that is put is the next one that is taken, and it is the only one.
get_char-put_char :
    (c : ℕ) (q : UartQueue)
    → q.fifo_enabled ≡ false
    → (let (taken, p) = put_char c q in
        let (got, r) = get_char p in
        (taken ≡ true) × (got ≡ some c) × (waiting r ≡ []) × (empty r ≡ true))
unfolding put_char get_char empty
get_char-put_char c q disabled = rw disabled (refl, refl, refl, refl)

-- A queue holds at most 16 characters, whatever is put.
put_char-bounded : (c : ℕ) (q : UartQueue) → length q.fifo ≤ 16 → length (put_char c q).1.fifo ≤ 16
unfolding put_char
put_char-bounded c q h =
    if-elim q.fifo_enabled
      (if leb configured_size (length q.fifo)
        then (false, q)
        else (true, record q { fifo = q.fifo ++ c ∷ [] }))
      (true, record q { holding_register = c; holding_register_primed = true })
      (λ (r : Bool × UartQueue). length r.1.fifo ≤ 16)
      (λ _.
        if-elim (leb configured_size (length q.fifo)) (false, q)
          (true, record q { fifo = q.fifo ++ c ∷ [] })
          (λ (r : Bool × UartQueue). length r.1.fifo ≤ 16) (λ _. h)
          (λ room. ground (arith, length-snoc q.fifo c)))
      (λ _. h)
