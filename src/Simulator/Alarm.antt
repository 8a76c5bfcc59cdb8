-- ===== src/Simulator/Alarm.antt =====
-- The timer and the cores: ServiceDevices and Ready (src/riscv_simulator.C,
-- include/riscv_core_state.h).
use dimebox.Common.{
  ℕ, zero, suc, Bool, true, false, ap, ◌≡◌, ◌≤◌, ◌<◌, refl, arith, ◌∙◌, ◌+◌, ◌*◌, ◌/◌, ◌%◌, ◌^◌,
  ◌&&◌, bit-or, if◌then◌else◌, Bool-cases, inl, inr,
}
use dimebox.Exceptions.{SimException}
use dimebox.State.{RiscvState}
use dimebox.State.Trap.{ready, signal}
use dimebox.State.Fields.{mie_bit}
use dimebox.State.Interrupts.{interrupt_pending_lem, is_live}
use dimebox.Device.Timer.{MachineTimer, advance_timer}
use dimebox.Device.Timer as Timer
use dimebox.Device.TimerLaws.{interrupt_pending-ticks}
use dimebox.Simulator.{Devices, service_devices, service_timer, service_uart1}

ready-is_live :
    (s : RiscvState)
    → s.end_test ≡ false
    → mie_bit s.mstatus_reg ≡ 1
    → is_live 7 s ≡ true
    → ready s ≡ true
unfolding ready
ready-is_live s h e l = ground (arith, interrupt_pending_lem s)

-- What a service of the devices leaves of the core.
record SameMask (s t : RiscvState) : Type 0 where
  same_end_test : s.end_test ≡ t.end_test
  same_mstatus : s.mstatus_reg ≡ t.mstatus_reg
  same_mie : s.mie ≡ t.mie

abbrev signal_if : Bool → SimException → RiscvState → RiscvState
signal_if b e s = if b then signal e s else s

same_mask : (s : RiscvState) → SameMask s s
same_mask s = record { same_end_test = refl; same_mstatus = refl; same_mie = refl }

signal_if-SameMask : (b : Bool) (e : SimException) (s : RiscvState) → SameMask (signal_if b e s) s
unfolding signal
signal_if-SameMask false e s = same_mask s
signal_if-SameMask true SimException.machine_timer_int s = record {
  same_end_test = refl;
  same_mstatus = refl;
  same_mie = refl;
}
signal_if-SameMask true SimException.machine_external_int s = record {
  same_end_test = refl;
  same_mstatus = refl;
  same_mie = refl;
}
signal_if-SameMask true _ s = same_mask s

timer_bit-external :
    (b : Bool) (s : RiscvState)
    → s.mip / 2 ^ 7 % 2 ≡ 1
    → (signal_if b SimException.machine_external_int s).mip / 2 ^ 7 % 2 ≡ 1
unfolding signal
timer_bit-external true s h = omega (arith, bit-or 7 s.mip 2048)
timer_bit-external false s h = h

timer_bit-timer : (s : RiscvState) → (signal SimException.machine_timer_int s).mip / 2 ^ 7 % 2 ≡ 1
unfolding signal
timer_bit-timer s = omega (arith, bit-or 7 s.mip 128)

advance_timer_lem :
    (t : MachineTimer)
    → t.timer + t.timer_advance < 2 ^ 64
    → ((advance_timer t).timer ≡ t.timer + t.timer_advance)
      × ((advance_timer t).timer_compare ≡ t.timer_compare)
      × ((advance_timer t).timer_advance ≡ t.timer_advance)
      × ((advance_timer t).is_implemented ≡ t.is_implemented)
unfolding advance_timer
advance_timer_lem t h = (ground arith, refl, refl, refl)

due :
    (t : MachineTimer)
    → t.timer + 1 * t.timer_advance < 2 ^ 64
    → 0 < t.timer_compare
    → t.timer_compare ≤ t.timer + 1 * t.timer_advance
    → Timer.interrupt_pending (advance_timer t) ≡ true
due t h is_set reached = interrupt_pending-ticks 1 t h ∙ ground arith

module _ {U : Type 0} (service_uart : U → U × Bool) where
  uart_pending : Devices U → Bool
  uart_pending d = d.uart_is_implemented && (service_uart d.uart1).1

  service_uart1_lem :
      (d : Devices U) (core : RiscvState)
      → ((service_uart1 service_uart d core).0.timer ≡ d.timer)
        × ((service_uart1 service_uart d core).1
            ≡ signal_if (uart_pending d) SimException.machine_external_int core)
  unfolding service_uart1 uart_pending
  service_uart1_lem d core = elim (Bool-cases d.uart_is_implemented) [
    | inl h ↦ rw h (refl, refl)
    | inr h ↦ rw h (refl, refl)
  ]

  abbrev ticked : Devices U → Devices U
  ticked d = record d { timer = advance_timer d.timer }

  abbrev alarmed : Devices U → RiscvState → RiscvState
  alarmed d core =
      signal_if (Timer.interrupt_pending (advance_timer d.timer)) SimException.machine_timer_int
        core

  service_timer_lem :
      (d : Devices U) (core : RiscvState)
      → d.timer.is_implemented ≡ true
      → service_timer service_uart d core ≡ (ticked d, alarmed d core)
  unfolding service_timer
  service_timer_lem d core h =
      ap (λ (b : Bool). if b then (ticked d, alarmed d core) else (d, core)) h

  service_devices_lem :
      (d : Devices U) (core : RiscvState)
      → d.timer.is_implemented ≡ true
      → ((service_devices service_uart d core).0.timer ≡ advance_timer d.timer)
        × ((service_devices service_uart d core).1
            ≡ signal_if
                (uart_pending (ticked d))
                SimException.machine_external_int
                (alarmed d core))
  unfolding service_devices service_timer service_uart1
  service_devices_lem d core h =
      let timed = service_timer_lem d core h in
      let (time, after) = service_uart1_lem (ticked d) (alarmed d core) in
      (
        ap (λ (r : Devices U × RiscvState). (service_uart1 service_uart r.0 r.1).0.timer) timed
            ∙ time,
        ap (λ (r : Devices U × RiscvState). (service_uart1 service_uart r.0 r.1).1) timed ∙ after,
      )

  service_devices-SameMask :
      (d : Devices U) (core : RiscvState)
      → d.timer.is_implemented ≡ true
      → SameMask (service_devices service_uart d core).1 core
  service_devices-SameMask d core h =
      let (_, after) = service_devices_lem d core h in
      let outer =
        signal_if-SameMask (uart_pending (ticked d)) SimException.machine_external_int
          (alarmed d core) in
      let inner =
        signal_if-SameMask (Timer.interrupt_pending (advance_timer d.timer))
          SimException.machine_timer_int core in
      record {
        same_end_test =
            ap (λ (s : RiscvState). s.end_test) after ∙ outer.same_end_test ∙ inner.same_end_test;
        same_mstatus =
            ap (λ (s : RiscvState). s.mstatus_reg) after ∙ outer.same_mstatus ∙ inner.same_mstatus;
        same_mie = ap (λ (s : RiscvState). s.mie) after ∙ outer.same_mie ∙ inner.same_mie;
      }

  service_devices-timer_bit :
      (d : Devices U) (core : RiscvState)
      → d.timer.is_implemented ≡ true
      → Timer.interrupt_pending (advance_timer d.timer) ≡ true
      → (service_devices service_uart d core).1.mip / 2 ^ 7 % 2 ≡ 1
  service_devices-timer_bit d core h pending =
      let (_, after) = service_devices_lem d core h in
      ap (λ (s : RiscvState). s.mip / 2 ^ 7 % 2) after
      ∙ timer_bit-external (uart_pending (ticked d)) (alarmed d core)
          (rw pending (timer_bit-timer core))

  -- `n` clock ticks with the devices' service.
  abbrev pub serve : ℕ → Devices U → RiscvState → RiscvState
  serve zero d core = core
  serve (suc n) d core =
      let (after, signalled) = service_devices service_uart d core in serve n after signalled

  -- A core that is not halted, sleeping or not, with interrupts enabled and that of the timer in
  -- MIE, is ready when the clock has ticked until the timer has reached its compare value, whatever
  -- the UART did meanwhile, as long as the 64 bits of the timer do not overflow.
  pub serve-ready :
      (n : ℕ) (d : Devices U) (core : RiscvState)
      → d.timer.is_implemented ≡ true
      → d.timer.timer + suc n * d.timer.timer_advance < 2 ^ 64
      → 0 < d.timer.timer_compare
      → d.timer.timer_compare ≤ d.timer.timer + suc n * d.timer.timer_advance
      → core.end_test ≡ false
      → mie_bit core.mstatus_reg ≡ 1
      → core.mie / 2 ^ 7 % 2 ≡ 1
      → ready (serve (suc n) d core) ≡ true
  serve-ready zero d core is_on no_overflow is_set reached h e l =
      let same = service_devices-SameMask d core is_on in
      let pending =
        service_devices-timer_bit d core is_on (due d.timer no_overflow is_set reached) in
      ready-is_live (service_devices service_uart d core).1 (same.same_end_test ∙ h)
        (ap mie_bit same.same_mstatus ∙ e) (rw (pending, same.same_mie, l) refl)
  serve-ready (suc n) d core is_on no_overflow is_set reached h e l =
      let same = service_devices-SameMask d core is_on in
      let (time, _) = service_devices_lem d core is_on in
      let (now, compare_kept, advance_kept, on) = advance_timer_lem d.timer (omega arith) in
      let next = service_devices service_uart d core in
      let at = ap (λ (t : MachineTimer). t.timer) time ∙ now in
      let per = ap (λ (t : MachineTimer). t.timer_advance) time ∙ advance_kept in
      let goal = ap (λ (t : MachineTimer). t.timer_compare) time ∙ compare_kept in
      serve-ready n next.0 next.1 (ap (λ (t : MachineTimer). t.is_implemented) time ∙ on ∙ is_on)
        (rw (at, per) (omega arith)) (rw goal is_set) (rw (at, per, goal) (omega arith))
        (same.same_end_test ∙ h) (ap mie_bit same.same_mstatus ∙ e)
        (ap (λ (w : ℕ). w / 2 ^ 7 % 2) same.same_mie ∙ l)
