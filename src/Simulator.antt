-- ===== src/Simulator.antt =====
-- StepCore, InstructionCountExceeded, SleepingCores and ServiceDevices of RiscvSimulator
-- (src/riscv_simulator.C, include/riscv_simulator.h), without a debug server. The loop of Go is in
-- Go.
pub mod Wake
pub mod Alarm
pub mod Go
pub mod Counts
pub mod Ran
pub mod Limit
pub mod Total
pub mod Readiness
pub mod Tests
use dimebox.Common.{
  ℕ, Bool, true, false, ◌+◌, ◌-◌, ◌^◌, ◌==◌, ltb, u32, Option, none, some, List, [], ◌∷◌,
  if◌then◌else◌,
}
use dimebox.Exceptions.{SimException}
use dimebox.Outcome.{Outcome, done, thrown, runtime_error, undefined}
use dimebox.State.{RiscvState, low_power_mode, set_end_test}
use dimebox.State.Trap.{interrupt_pending, process_exception, signal}
use dimebox.State.Copy.{update}
use dimebox.Instruction.Mnemonic.{Mnemonic}
use dimebox.Instruction.Factory.{new_instruction, new_instruction16}
use dimebox.Instruction.Machine.{MemoryPort, Machine, from_bytes}
use dimebox.Instruction.Execute.{new, execute, writeback}
use dimebox.Device.Timer as Timer
use dimebox.Device.Timer.{MachineTimer}

-- The members of the simulator that a step of a core changes.
pub record Run (M : Type 0) : Type 0 where
  pub core : RiscvState
  pub memory : M
  pub instr_count : ℕ
  pub failed : Bool

-- The interrupt of a step, serviced on the copy of the core: none is the std::runtime_error.
unfoldable pub service_as : Option SimException → RiscvState → Option RiscvState
unfolding process_exception
service_as none s = some s
service_as (some e) s = process_exception e s

unfoldable pub service_interrupt : RiscvState → Option RiscvState
unfolding interrupt_pending service_as
service_interrupt s = service_as (interrupt_pending s) s

-- What a step makes of the core after an instruction that began at `pc`.
unfoldable pub check_end_test : Bool → ℕ → RiscvState → RiscvState
unfolding set_end_test low_power_mode
check_end_test ecall_ends pc core =
    let core = if ecall_ends then set_end_test true core else core in
    if core.end_test
    then core
    else if low_power_mode core
    then core
    else set_end_test (core.pc == pc) core

abbrev pub is_unknown : Mnemonic → Bool
is_unknown Mnemonic.unknown = true
is_unknown _ = false

abbrev pub is_ecall : Mnemonic → Bool
is_ecall Mnemonic.ecall = true
is_ecall _ = false

-- `fetch` is ReadMemory of instruction bytes, at an address and of a size; `isa_test` is the option
-- of that name.
module _ {M : Type 0} (p : MemoryPort M) (fetch : ℕ → ℕ → M → Outcome (List ℕ) × M) where
  -- The encoding in the first bytes of the buffer, if memory gives them.
  unfoldable pub encoding_of : ℕ → Outcome (List ℕ) × M → Outcome ℕ × M
  unfolding from_bytes
  encoding_of size (done bytes, after) = (done (u32 (from_bytes size 0 bytes 0)), after)
  encoding_of size (thrown e, after) = (thrown e, after)
  encoding_of size (runtime_error, after) = (runtime_error, after)
  encoding_of size (undefined, after) = (undefined, after)

  unfoldable pub instruction32 : Outcome ℕ × M → Outcome (Mnemonic × (ℕ × ℕ)) × M
  unfolding new_instruction
  instruction32 (done enc, after) = (done (new_instruction enc, (4, enc)), after)
  instruction32 (thrown e, after) = (thrown e, after)
  instruction32 (runtime_error, after) = (runtime_error, after)
  instruction32 (undefined, after) = (undefined, after)

  -- The class, the size and the encoding of the instruction whose first two bytes were read: one
  -- that is not compressed is read again at its full size.
  unfoldable pub instruction16 : RiscvState → ℕ → Outcome ℕ × M → Outcome (Mnemonic × (ℕ × ℕ)) × M
  unfolding new_instruction16 encoding_of instruction32
  instruction16 s pc (done enc, after) =
      if is_unknown (new_instruction16 s enc)
      then instruction32 (encoding_of 4 (fetch pc 4 after))
      else (done (new_instruction16 s enc, (2, enc)), after)
  instruction16 s pc (thrown e, after) = (thrown e, after)
  instruction16 s pc (runtime_error, after) = (runtime_error, after)
  instruction16 s pc (undefined, after) = (undefined, after)

  unfoldable pub next_instruction : RiscvState → ℕ → M → Outcome (Mnemonic × (ℕ × ℕ)) × M
  unfolding encoding_of instruction16
  next_instruction s pc memory = instruction16 s pc (encoding_of 2 (fetch pc 2 memory))

  -- Execute, Writeback and what follows them. A throw leaves the step. The count is an int that is not
  -- negative: to add to the greatest one is undefined.
  unfoldable pub run_instruction :
      Bool → RiscvState → Mnemonic → ℕ → ℕ → Run M → Outcome (Unit {0}) × Run M
  unfolding new execute writeback check_end_test
  run_instruction isa_test s name size encoding run =
      let (r, machine) = execute p name encoding (new size s run.memory) in
      let (w, (core, memory)) = writeback p machine run.core in
      elim r [
        | done _ ↦ elim w [
          | done _ ↦
              if run.instr_count == 2 ^ 31 - 1
              then (undefined, record run { core = core; memory = memory })
              else (
                done tt,
                record run {
                  core = check_end_test (if is_ecall name then isa_test else false) (u32 s.pc) core;
                  memory = memory;
                  instr_count = run.instr_count + 1;
                },
              )
          | thrown e ↦ (thrown e, record run { core = core; memory = memory })
          | runtime_error ↦ (runtime_error, record run { core = core; memory = memory })
          | undefined ↦ (undefined, record run { core = core; memory = memory })
        ]
        | thrown e ↦ (thrown e, record run { memory = machine.memory })
        | runtime_error ↦ (runtime_error, record run { memory = machine.memory })
        | undefined ↦ (undefined, record run { memory = machine.memory })
      ]

  -- What the outcome of the fetch and the decoding leads to.
  unfoldable pub run_fetched :
      Bool → RiscvState → Run M → Outcome (Mnemonic × (ℕ × ℕ)) × M → Outcome (Unit {0}) × Run M
  unfolding run_instruction
  run_fetched isa_test s run (done (name, (size, encoding)), memory) =
      run_instruction isa_test s name size encoding (record run { memory = memory })
  run_fetched isa_test s run (thrown e, memory) =
      (done tt, record run { memory = memory; failed = true })
  run_fetched isa_test s run (runtime_error, memory) =
      (runtime_error, record run { memory = memory })
  run_fetched isa_test s run (undefined, memory) = (undefined, record run { memory = memory })

  unfoldable pub step_serviced : Bool → Run M → Option RiscvState → Outcome (Unit {0}) × Run M
  unfolding low_power_mode next_instruction run_fetched
  step_serviced isa_test run none = (runtime_error, run)
  step_serviced isa_test run (some s) =
      if low_power_mode s
      then (done tt, run)
      else run_fetched isa_test s run (next_instruction s (u32 s.pc) run.memory)

  -- StepCore. `blank` is what the new copy of the core holds before it takes the registers over.
  unfoldable pub step_core : Bool → RiscvState → Run M → Outcome (Unit {0}) × Run M
  unfolding update service_interrupt step_serviced
  step_core isa_test blank run =
      step_serviced isa_test run (service_interrupt (update run.core blank))

-- The limit is an int: a negative one, which is none here, is no limit.
unfoldable pub instruction_count_exceeded : Option ℕ → ℕ → Bool
instruction_count_exceeded none instr_count = false
instruction_count_exceeded (some max_instrs) instr_count = ltb max_instrs instr_count

unfoldable pub sleeping_cores : List RiscvState → Bool
unfolding low_power_mode
sleeping_cores [] = false
sleeping_cores (core ∷ cores) = if low_power_mode core then true else sleeping_cores cores

-- The devices: the timer, and a UART with its clock and the servicing of its input and output.
pub record Devices (U : Type 0) : Type 0 where
  pub timer : MachineTimer
  pub uart1 : U
  pub uart_is_implemented : Bool

module _ {U : Type 0} (service_uart : U → U × Bool) where
  -- The part of ServiceDevices for the timer, with the first core.
  unfoldable pub service_timer : Devices U → RiscvState → Devices U × RiscvState
  unfolding signal Timer.advance_timer Timer.interrupt_pending
  service_timer d core =
      if d.timer.is_implemented
      then (let ticked = Timer.advance_timer d.timer in
          (
            record d { timer = ticked },
            if Timer.interrupt_pending ticked
                then signal SimException.machine_timer_int core
                else core,
          ))
      else (d, core)

  -- The part for the UART: `service_uart` gives the UART after a tick, and its interrupt.
  unfoldable pub service_uart1 : Devices U → RiscvState → Devices U × RiscvState
  unfolding signal
  service_uart1 d core =
      if d.uart_is_implemented
      then (let (uart1, pending) = service_uart d.uart1 in
          (
            record d { uart1 = uart1 },
            if pending then signal SimException.machine_external_int core else core,
          ))
      else (d, core)

  unfoldable pub service_devices : Devices U → RiscvState → Devices U × RiscvState
  unfolding service_timer service_uart1
  service_devices d core =
      let (after, signalled) = service_timer d core in service_uart1 after signalled
