-- ===== src/Simulator/Ran.antt =====
-- Which steps run an instruction, against the count of the simulator (src/riscv_simulator.C).
use dimebox.Common.{
  ℕ, Bool, true, false, not, ◌≡◌, arith, ◌&&◌, ◌+◌, if◌then◌else◌, Option, none, some, List,
  Bool-cases, inl, inr,
}
use dimebox.Outcome.{Outcome, done, thrown, runtime_error, undefined}
use dimebox.State.{RiscvState, low_power_mode}
use dimebox.State.Copy.{update}
use dimebox.Instruction.Mnemonic.{Mnemonic}
use dimebox.Instruction.Machine.{MemoryPort}
use dimebox.Simulator.{
  Run, step_core, step_serviced, run_fetched, run_instruction, service_interrupt, next_instruction,
}

abbrev pub is_done : {A : Type 0} → Outcome A → Bool
is_done (done _) = true
is_done _ = false

-- Whether the core, if there is one, is awake.
abbrev is_awake : Option RiscvState → Bool
is_awake none = false
is_awake (some s) = not (low_power_mode s)

-- 1 if the step has run an instruction: it ended with no exception and no error code.
abbrev completed : {M : Type 0} → Outcome (Unit {0}) × Run M → ℕ
completed (r, after) = if is_done r && not after.failed then 1 else 0

module _ {M : Type 0} (p : MemoryPort M) (fetch : ℕ → ℕ → M → Outcome (List ℕ) × M)
    (isa_test : Bool) (blank : RiscvState) where
  run_instruction-completed :
      (s : RiscvState) (name : Mnemonic) (size encoding : ℕ) (run : Run M)
      → run.failed ≡ false
      → (run_instruction p fetch isa_test s name size encoding run).1.instr_count
        ≡ run.instr_count + completed (run_instruction p fetch isa_test s name size encoding run)
  unfolding run_instruction
  run_instruction-completed s name size encoding run h = ground arith

  run_fetched-completed :
      (s : RiscvState) (run : Run M) (fetched : Outcome (Mnemonic × (ℕ × ℕ)) × M)
      → run.failed ≡ false
      → (run_fetched p fetch isa_test s run fetched).1.instr_count
        ≡ run.instr_count + completed (run_fetched p fetch isa_test s run fetched)
  unfolding run_fetched
  run_fetched-completed s run (done (name, (size, encoding)), memory) h =
      run_instruction-completed s name size encoding (record run { memory = memory }) h
  run_fetched-completed s run (thrown e, memory) h = omega arith
  run_fetched-completed s run (runtime_error, memory) h = omega arith
  run_fetched-completed s run (undefined, memory) h = omega arith

  -- 1 if StepCore runs an instruction: the core is awake once its interrupt is serviced, and the
  -- step is completed.
  abbrev pub ran : Run M → ℕ
  ran run =
      if is_awake (service_interrupt (update run.core blank))
      then completed (step_core p fetch isa_test blank run)
      else 0

  step_serviced-ran :
      (run : Run M) (serviced : Option RiscvState)
      → run.failed ≡ false
      → (step_serviced p fetch isa_test run serviced).1.instr_count
        ≡ run.instr_count
          + (if is_awake serviced
              then completed (step_serviced p fetch isa_test run serviced)
              else 0)
  unfolding step_serviced
  step_serviced-ran run none h = omega arith
  step_serviced-ran run (some s) h = elim (Bool-cases (low_power_mode s)) [
    | inl e ↦ rw e (omega arith)
    | inr e ↦ rw e (run_fetched-completed s run (next_instruction p fetch s _ run.memory) h)
  ]

  pub step_core-ran :
      (run : Run M)
      → run.failed ≡ false
      → (step_core p fetch isa_test blank run).1.instr_count ≡ run.instr_count + ran run
  unfolding step_core
  step_core-ran run h = step_serviced-ran run (service_interrupt (update run.core blank)) h
