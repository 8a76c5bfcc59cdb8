-- ===== src/State/Interrupts.antt =====
-- Which interrupt is pending, and its service: InterruptPending, ProcessException and the WFI
-- (src/riscv_core_state.C).
use dimebox.Common.{
  ℕ, ap, sym, Bool, false, none, some, ◌+◌, ◌-◌, ◌*◌, ◌%◌, ◌/◌, ◌^◌, ◌<◌, ◌≡◌, ◌⊎◌, refl, arith,
  ◌∙◌, bit_and, bit_or, ◌==◌, if◌then◌else◌, bit-and, bit-or, and_ones, ◌&&◌, not64, and-zero,
  ◌<<<◌, inl, inr, and_split,
}
use dimebox.Exceptions.{SimException, cause}
use dimebox.State.{
  RiscvState, set_pc, compressed_extension_enabled, current_privilege_level,
  global_interrupts_enabled, clear_low_power_mode, low_power_mode, set_low_power_mode, mstatus,
  set_mstatus, set_privilege_level,
}
use dimebox.State.Trap.{
  push_privilege_level, process_exception, take_interrupt, return_from_trap, interrupt_pending,
  enter_low_power, signal,
}
use dimebox.State.Fields.{mie_bit, mpie_bit, mstatus_fields}
use dimebox.State.Privilege.{privilege, push_fields, push-SameOutside, pop-SameOutside, and-one}

-- Bits 11 and 7 of MIP and MIE are those of the external and the timer interrupt.
abbrev pub is_live : ℕ → RiscvState → Bool
is_live i s = (s.mip / 2 ^ i % 2 == 1) && (s.mie / 2 ^ i % 2 == 1)

and-eight : (w : ℕ) → bit_and w 8 ≡ mie_bit w * 8
and-eight w = ground (
  arith,
  and_split 3 (w / 8) (w % 8) 1 0 (omega arith) (omega arith),
  and-one (w / 8),
  and-zero (w % 8),
)

-- With interrupts globally enabled the external interrupt comes first, then the timer's, each if it
-- is both pending and enabled; there is no other, and with interrupts disabled there is none.
pub interrupt_pending_lem :
    (s : RiscvState)
    → interrupt_pending s ≡ (
        if mie_bit s.mstatus_reg == 0
        then none
        else if is_live 11 s
        then some SimException.machine_external_int
        else if is_live 7 s
        then some SimException.machine_timer_int
        else none)
unfolding interrupt_pending global_interrupts_enabled
interrupt_pending_lem s = ground (
  arith,
  and-eight (mstatus s),
  mstatus_fields s,
  and-one (s.mip / 2048),
  and-one (s.mie / 2048),
  and-one (s.mip / 128),
  and-one (s.mie / 128),
)

-- `t` is `s` at the entry of the handler of the interrupt with the number `n`.
pub record Interrupted (n : ℕ) (s t : RiscvState) : Type 0 where
  pub at_vector : t.pc ≡ (s.mtvec + n * 4) % 2 ^ 64
  pub return_address : t.mepc ≡ s.pc
  pub reason : t.mcause ≡ 2 ^ 31 + n
  pub acknowledged : t.mip / 2 ^ n % 2 ≡ 0
  pub awake : low_power_mode t ≡ false
  pub machine : privilege t ≡ 3
  pub masked : mie_bit t.mstatus_reg ≡ 0
  pub stacked : mpie_bit t.mstatus_reg ≡ mie_bit s.mstatus_reg
  pub same_extensions : t.misa ≡ s.misa
  pub same_registers : t.x ≡ s.x

and-sixteen : (w : ℕ) → bit_and w 16 ≡ w / 2 ^ 4 % 2 * 16
and-sixteen w = ground (
  arith,
  and_split 4 (w / 16) (w % 16) 1 0 (omega arith) (omega arith),
  and-one (w / 16),
  and-zero (w % 16),
)

low_power_mode_lem : (s : RiscvState) → low_power_mode s ≡ (s.machine_state / 2 ^ 4 % 2 == 1)
unfolding low_power_mode
low_power_mode_lem s = ground (arith, and-sixteen s.machine_state)

-- The bit of the low power mode does not move with the privilege level.
level-low_power :
    (w l : ℕ) → l < 4 → bit_or (bit_and w (2 ^ 32 - 1 - 3)) l / 2 ^ 4 % 2 ≡ w / 2 ^ 4 % 2
level-low_power w l h =
    omega (arith, bit-or 4 (bit_and w (2 ^ 32 - 1 - 3)) l, bit-and 4 w (2 ^ 32 - 1 - 3))

push-low_power_mode : (s : RiscvState) → low_power_mode (push_privilege_level s) ≡ low_power_mode s
unfolding push_privilege_level set_mstatus set_privilege_level
push-low_power_mode s =
    low_power_mode_lem (push_privilege_level s)
    ∙ ap (λ (b : ℕ). b == 1) (level-low_power s.machine_state 3 (omega arith))
    ∙ sym (low_power_mode_lem s)

clear-low_power_mode : (s : RiscvState) → low_power_mode (clear_low_power_mode s) ≡ false
unfolding clear_low_power_mode
clear-low_power_mode s =
    rw low_power_mode_lem (ground (arith, bit-and 4 s.machine_state (2 ^ 32 - 1 - 0x10)))

take_interrupt-Interrupted :
    (n : ℕ) (e : SimException) (s : RiscvState)
    → n < 2 ^ 28
    → (2 ^ 64 - 1 - 2 ^ n) / 2 ^ n % 2 ≡ 0
    → bit_or (cause e) 0x80000000 ≡ 2 ^ 31 + n
    → Interrupted n s (take_interrupt n e s)
unfolding take_interrupt set_pc clear_low_power_mode current_privilege_level
take_interrupt-Interrupted n e s small mask code =
    let b = clear_low_power_mode (record s { mip = bit_and s.mip (not64 (1 <<< n)) }) in
    let fields = push_fields b in
    let frame = push-SameOutside b in
    record {
      at_vector = ground (arith, frame.same_mtvec, code, and_ones 28 (bit_or (cause e) 0x80000000));
      return_address = frame.same_pc;
      reason = code;
      acknowledged = ground (arith, frame.same_mip, bit-and n s.mip (not64 (1 <<< n)));
      awake =
          low_power_mode_lem (take_interrupt n e s)
          ∙ sym (low_power_mode_lem (push_privilege_level b))
          ∙ push-low_power_mode b
          ∙ clear-low_power_mode (record s { mip = bit_and s.mip (not64 (1 <<< n)) });
      machine = fields.0;
      masked = fields.1;
      stacked = fields.2;
      same_extensions = frame.same_misa;
      same_registers = frame.same_x;
    }

-- The number of an interrupt.
abbrev pub line : SimException → ℕ
line SimException.machine_external_int = 11
line _ = 7

service :
    (e : SimException) (s : RiscvState)
    → (e ≡ SimException.machine_external_int) ⊎ (e ≡ SimException.machine_timer_int)
    → (t : RiscvState) × (process_exception e s ≡ some t) × Interrupted (line e) s t
unfolding process_exception cause
service e s (inl h) = rw h (_, refl, take_interrupt-Interrupted 11 _ s (omega arith) refl refl)
service e s (inr h) = rw h (_, refl, take_interrupt-Interrupted 7 _ s (omega arith) refl refl)

pending_cases :
    (e : SimException) (s : RiscvState)
    → interrupt_pending s ≡ some e
    → (e ≡ SimException.machine_external_int) ⊎ (e ≡ SimException.machine_timer_int)
pending_cases e s h = ground (arith, interrupt_pending_lem s)

-- A pending interrupt is serviced: the core stands at its vector in machine mode, awake, with the
-- interrupt acknowledged in MIP, MEPC and MCAUSE set and the registers as they were; and no
-- interrupt is pending any more, since they are masked.
pub interrupt_pending-serviced :
    (e : SimException) (s : RiscvState)
    → interrupt_pending s ≡ some e
    → (t : RiscvState) × (process_exception e s ≡ some t)
      × Interrupted (line e) s t
      × (interrupt_pending t ≡ none)
interrupt_pending-serviced e s h =
    let (t, served, entered) = service e s (pending_cases e s h) in
    (t, served, entered, interrupt_pending_lem t ∙ ground (arith, entered.masked))

signal_frame :
    (d : SimException) (s : RiscvState) → ((signal d s).pc ≡ s.pc) × ((signal d s).misa ≡ s.misa)
unfolding signal
signal_frame SimException.machine_timer_int s = (refl, refl)
signal_frame SimException.machine_external_int s = (refl, refl)
signal_frame _ s = (refl, refl)

return_address : (t : RiscvState) → bit_and t.misa 4 ≡ 4 → (return_from_trap t).pc ≡ t.mepc
unfolding return_from_trap set_pc compressed_extension_enabled
return_address t c = ground (arith, (pop-SameOutside t).same_misa, (pop-SameOutside t).same_mepc)

-- The core after a WFI.
abbrev pub asleep : RiscvState → RiscvState
asleep s = enter_low_power SimException.process_wfi s

-- A core sleeps at a WFI, with MEPC behind it, until a device signals an interrupt that is enabled.
-- Its service sets MEPC to the WFI itself, so the MRET of the handler, with the compressed
-- extension enabled, comes back to the WFI and not to the instruction behind it.
pub wfi_repeats :
    (s : RiscvState) (device e : SimException)
    → bit_and s.misa 4 ≡ 4
    → interrupt_pending (signal device (asleep s)) ≡ some e
    → ((asleep s).mepc ≡ (s.pc + 4) % 2 ^ 64)
      × ((t r : RiscvState) × (process_exception e (signal device (asleep s)) ≡ some t)
          × (process_exception SimException.process_mret t ≡ some r)
          × (r.pc ≡ s.pc))
unfolding enter_low_power set_low_power_mode
wfi_repeats s device e c h =
    let woken = signal device (asleep s) in
    let (t, served, entered, _) = interrupt_pending-serviced e woken h in
    let frame = signal_frame device (asleep s) in
    let enabled : bit_and t.misa 4 ≡ 4 = ground (arith, entered.same_extensions, frame.1) in
    (
      refl,
      (
        t,
        return_from_trap t,
        served,
        unfold process_exception in refl,
        return_address t enabled ∙ entered.return_address ∙ frame.0,
      ),
    )
