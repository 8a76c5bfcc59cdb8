-- ===== src/Device/TimerLaws.antt =====
-- What software sees of the timer (src/timer.C).
use dimebox.Common.{
  ℕ, zero, suc, ◌&&◌, ◌+◌, ◌*◌, ◌%◌, ◌^◌, ◌<◌, ◌≡◌, refl, ap, arith, ◌∙◌, sym, bit_or, ◌<<<◌, ◌>>>◌,
  ◌!=◌, leb, u64, some, and_ones, or_split, or-zero, zero-or,
}
use dimebox.Device.Timer.{
  MachineTimer, Register, advance_timer, interrupt_pending, read_register, write_register,
}

-- `n` ticks of the clock.
abbrev pub ticks : ℕ → MachineTimer → MachineTimer
ticks zero t = t
ticks (suc n) t = ticks n (advance_timer t)

ticks_timer :
    (n : ℕ) (t : MachineTimer)
    → t.timer + n * t.timer_advance < 2 ^ 64
    → ((ticks n t).timer ≡ t.timer + n * t.timer_advance)
      × ((ticks n t).timer_compare ≡ t.timer_compare)
unfolding advance_timer
ticks_timer zero t h = (omega arith, refl)
ticks_timer (suc n) t h =
    let now : u64 (t.timer + t.timer_advance) ≡ t.timer + t.timer_advance = ground arith in
    let rest = ticks_timer n (advance_timer t) (ground arith) in (ground arith, rest.1)

-- The interrupt is pending after `n` ticks just when the compare value was set and the ticks have
-- reached it, as long as the 64 bits do not overflow.
pub interrupt_pending-ticks :
    (n : ℕ) (t : MachineTimer)
    → t.timer + n * t.timer_advance < 2 ^ 64
    → interrupt_pending (ticks n t)
      ≡ ((t.timer_compare != 0) && leb t.timer_compare (t.timer + n * t.timer_advance))
unfolding interrupt_pending
interrupt_pending-ticks n t h = let (time, compare) = ticks_timer n t h in rw (time, compare) refl

high_or :
    (q r high : ℕ) → r < 2 ^ 32 → bit_or (q * 2 ^ 32 + r) (high <<< 32) ≡ bit_or q high * 2 ^ 32 + r
high_or q r high h =
    let shape : high * 2 ^ 32 + 0 ≡ high * 2 ^ 32 = omega arith in
    ap (bit_or (q * 2 ^ 32 + r)) (sym shape)
    ∙ or_split 32 q r high 0 h (omega arith)
    ∙ omega (arith, or-zero r)

set_high : (low high : ℕ) → low < 2 ^ 32 → bit_or low (high <<< 32) ≡ high * 2 ^ 32 + low
set_high low high h =
    let shape : low ≡ 0 * 2 ^ 32 + low = omega arith in
    ap (λ (t : ℕ). bit_or t (high <<< 32)) shape
    ∙ high_or 0 low high h
    ∙ ap (λ (t : ℕ). t * 2 ^ 32 + low) (zero-or high)

-- A write of the low word and then of the high word sets the 64 bits, and both words read back.
write_register-both :
    (low high : ℕ) (t : MachineTimer)
    → low < 2 ^ 32
    → high < 2 ^ 32
    → (u v : MachineTimer) × (write_register Register.timer_lo low t ≡ some u)
      × (write_register Register.timer_hi high u ≡ some v)
      × (v.timer ≡ high * 2 ^ 32 + low)
      × (read_register Register.timer_lo v ≡ some low)
      × (read_register Register.timer_hi v ≡ some high)
unfolding write_register read_register
write_register-both low high t hl hh =
    let u : MachineTimer = record t { timer = low } in
    let whole : bit_or low (high <<< 32) ≡ high * 2 ^ 32 + low = set_high low high hl in
    (
      u,
      record u { timer = bit_or low (high <<< 32) },
      refl,
      refl,
      whole,
      ap some (omega (arith, whole, and_ones 32 (bit_or low (high <<< 32)))),
      ap some (omega (arith, whole)),
    )

-- A write of the high word alone only sets bits: what it reads as is the old word or the new one.
write_register-high :
    (high : ℕ) (t : MachineTimer)
    → (u : MachineTimer) × (write_register Register.timer_hi high t ≡ some u)
      × (read_register Register.timer_hi u ≡ some (bit_or (t.timer >>> 32) high))
      × (read_register Register.timer_lo u ≡ read_register Register.timer_lo t)
unfolding write_register read_register
write_register-high high t =
    let whole = high_or (t.timer >>> 32) (t.timer % 2 ^ 32) high (omega arith) in
    let word : t.timer >>> 32 * 2 ^ 32 + t.timer % 2 ^ 32 ≡ t.timer = omega arith in
    let now : bit_or t.timer (high <<< 32)
        ≡ bit_or (t.timer >>> 32) high * 2 ^ 32 + t.timer % 2 ^ 32 =
      ap (λ (x : ℕ). bit_or x (high <<< 32)) (sym word) ∙ whole in
    (
      record t { timer = bit_or t.timer (high <<< 32) },
      refl,
      ap some (omega (arith, now)),
      ap some (omega (arith, now, and_ones 32 t.timer, and_ones 32 (bit_or t.timer (high <<< 32)))),
    )

-- The compare registers read as the timer.
pub read_register-compare :
    (t : MachineTimer)
    → (read_register Register.timer_compare_lo t ≡ read_register Register.timer_lo t)
      × (read_register Register.timer_compare_hi t ≡ read_register Register.timer_hi t)
unfolding read_register
read_register-compare t = (refl, refl)
