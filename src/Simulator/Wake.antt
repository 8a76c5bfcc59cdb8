-- ===== src/Simulator/Wake.antt =====
-- Steps of ready cores: StepCore and Ready (src/riscv_simulator.C, include/riscv_core_state.h).
use dimebox.Common.{
  ℕ, Bool, true, false, ap, sym, ◌≡◌, refl, arith, ◌∙◌, Option, none, u32, some, List,
  if◌then◌else◌,
}
use dimebox.Exceptions.{SimException}
use dimebox.Outcome.{Outcome, done, thrown}
use dimebox.State.{RiscvState, low_power_mode}
use dimebox.State.Trap.{interrupt_pending, ready}
use dimebox.State.Copy.{update}
use dimebox.State.Fields.{mie_bit, mstatus_fields}
use dimebox.State.CopyLaws.{IsStored, SameRegisters, update-SameRegisters}
use dimebox.State.Interrupts.{interrupt_pending_lem, interrupt_pending-serviced}
use dimebox.Instruction.Mnemonic.{Mnemonic}
use dimebox.Instruction.Factory.{new_instruction16}
use dimebox.Instruction.Machine.{MemoryPort, from_bytes}
use dimebox.Simulator.{
  Run, service_as, service_interrupt, step_core, step_serviced, run_fetched, next_instruction,
  encoding_of, instruction16, instruction32,
}

interrupt_pending-SameRegisters :
    (s t : RiscvState) → SameRegisters s t → interrupt_pending s ≡ interrupt_pending t
interrupt_pending-SameRegisters s t same =
    let enabled : mie_bit s.mstatus_reg ≡ mie_bit t.mstatus_reg =
      ground (arith, mstatus_fields s, mstatus_fields t, same.same_mstatus) in
    interrupt_pending_lem s
    ∙ rw (enabled, same.same_mip, same.same_mie) (sym (interrupt_pending_lem t))

low_power-SameRegisters :
    (s t : RiscvState) → SameRegisters s t → low_power_mode s ≡ low_power_mode t
unfolding low_power_mode
low_power-SameRegisters s t same = rw (same.same_machine_state) refl

awake_or_pending :
    (s : RiscvState) → ready s ≡ true → interrupt_pending s ≡ none → low_power_mode s ≡ false
unfolding ready
awake_or_pending s h none_pending = ground arith

service_interrupt_lem : (s : RiscvState) → service_interrupt s ≡ service_as (interrupt_pending s) s
unfolding service_interrupt interrupt_pending
service_interrupt_lem s = refl

service_ready :
    (o : Option SimException) (s : RiscvState)
    → interrupt_pending s ≡ o
    → ready s ≡ true
    → (t : RiscvState) × (service_as o s ≡ some t) × (low_power_mode t ≡ false)
unfolding service_as
service_ready none s h r = (s, refl, awake_or_pending s r h)
service_ready (some e) s h r =
    let (t, served, entered, _) = interrupt_pending-serviced e s h in (t, served, entered.awake)

ready-SameRegisters : (s t : RiscvState) → SameRegisters s t → ready s ≡ ready t
unfolding ready
ready-SameRegisters s t same =
    rw
      (
        low_power-SameRegisters s t same,
        interrupt_pending-SameRegisters s t same,
        same.same_end_test,
      )
      refl

-- A core that is ready is never left at its WFI: the copy of it that a step works on, whatever that
-- held before, is awake once the interrupt that may be pending has been serviced.
pub service_interrupt-ready :
    (core blank : RiscvState)
    → IsStored core
    → ready core ≡ true
    → (t : RiscvState) × (service_interrupt (update core blank) ≡ some t)
      × (low_power_mode t ≡ false)
service_interrupt-ready core blank stored h =
    let same = update-SameRegisters core blank stored in
    let s = update core blank in
    let (t, served, awake) =
      service_ready (interrupt_pending s) s refl (ready-SameRegisters s core same ∙ h) in
    (t, service_interrupt_lem s ∙ served, awake)

-- Whether the core sleeps, if there is one.
abbrev sleeps : Option RiscvState → Bool
sleeps none = true
sleeps (some s) = low_power_mode s

awake_same :
    (s t : RiscvState) → some s ≡ some t → low_power_mode t ≡ false → low_power_mode s ≡ false
awake_same s t e awake = ap sleeps e ∙ awake

module _ {M : Type 0} (p : MemoryPort M) (fetch : ℕ → ℕ → M → Outcome (List ℕ) × M) where
  -- The instruction at `pc` cannot be read: the read of its first two bytes throws, or these are
  -- those of no compressed instruction and the read of all four throws.
  pub data IsUnread (s : RiscvState) (pc : ℕ) (memory : M) (e : SimException) (after : M)
      : Type 0 where
    at_first : fetch pc 2 memory ≡ (thrown e, after) → IsUnread s pc memory e after
    at_second :
        (bytes : List ℕ) (between : M)
        → fetch pc 2 memory ≡ (done bytes, between)
        → new_instruction16 s (u32 (from_bytes 2 0 bytes 0)) ≡ Mnemonic.unknown
        → fetch pc 4 between ≡ (thrown e, after)
        → IsUnread s pc memory e after

  next_instruction-unread :
      (s : RiscvState) (pc : ℕ) (memory after : M) (e : SimException)
      → IsUnread s pc memory e after
      → next_instruction p fetch s pc memory ≡ (thrown e, after)
  unfolding next_instruction encoding_of instruction16 instruction32
  next_instruction-unread s pc memory after e (at_first h) = rw h refl
  next_instruction-unread s pc memory after e (at_second bytes between h unknown k) =
      rw (h, unknown, k) refl

  -- A step of a ready core whose instruction cannot be read, at the address where the service of a
  -- pending interrupt leaves the PC: the core is as it was, an interrupt that was pending included,
  -- no instruction is counted, and the simulation has an error code.
  pub step_core-thrown :
      (isa_test : Bool) (blank t : RiscvState) (run : Run M) (after : M) (e : SimException)
      → IsStored run.core
      → ready run.core ≡ true
      → service_interrupt (update run.core blank) ≡ some t
      → IsUnread t (u32 t.pc) run.memory e after
      → step_core p fetch isa_test blank run
        ≡ (done tt, record run { memory = after; failed = true })
  unfolding step_core step_serviced run_fetched
  step_core-thrown isa_test blank t run after e stored h is_t unread =
      let (v, served, awake) = service_interrupt-ready run.core blank stored h in
      let same : low_power_mode t ≡ false = awake_same t v (sym is_t ∙ served) awake in
      ap (step_serviced p fetch isa_test run) is_t
      ∙ ap
          (λ (asleep : Bool).
            if asleep
            then (done tt, run)
            else run_fetched p fetch isa_test t run
                (next_instruction p fetch t (u32 t.pc) run.memory))
          same
      ∙ ap (run_fetched p fetch isa_test t run)
          (next_instruction-unread t (u32 t.pc) run.memory after e unread)
