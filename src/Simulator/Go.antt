-- ===== src/Simulator/Go.antt =====
-- GetReadyCpus, StepCores and the loop of Go (src/riscv_simulator.C), after the test image is loaded.
-- The cores are a list, and the ready cores are their places in it. How often random_shuffle was
-- called so far, and the list that it is given, decide what it does.
use dimebox.Common.{
  ℕ, zero, suc, Bool, true, false, not, ◌&&◌, ◌||◌, ◌+◌, u64, if◌then◌else◌, Option, none, some,
  List, [], ◌∷◌, ◌≡◌,
}
use dimebox.Outcome.{Outcome, done, thrown, runtime_error, undefined}
use dimebox.State.{RiscvState}
use dimebox.State.Trap.{ready}
use dimebox.Instruction.Machine.{MemoryPort}
use dimebox.Simulator.{
  Devices, step_core, instruction_count_exceeded, sleeping_cores, service_devices,
}

-- The members of the simulator that Go works with, and its local list of ready cores.
pub record Simulator (M : Type 0) (U : Type 0) : Type 0 where
  pub cores : List RiscvState
  pub memory : M
  pub devices : Devices U
  pub clock : ℕ
  pub instr_count : ℕ
  pub failed : Bool
  pub ready_cores : List ℕ
  pub shuffles : ℕ

abbrev pub core_at : ℕ → List RiscvState → Option RiscvState
core_at i [] = none
core_at zero (core ∷ cores) = some core
core_at (suc i) (core ∷ cores) = core_at i cores

abbrev pub set_core : ℕ → RiscvState → List RiscvState → List RiscvState
set_core i new [] = []
set_core zero new (core ∷ cores) = new ∷ cores
set_core (suc i) new (core ∷ cores) = core ∷ set_core i new cores

-- The places of the ready cores, from place `i` on.
unfoldable pub ready_from : ℕ → List RiscvState → List ℕ
unfolding ready
ready_from i [] = []
ready_from i (core ∷ cores) =
    let rest = ready_from (i + 1) cores in if ready core then i ∷ rest else rest

abbrev pub is_empty : List ℕ → Bool
is_empty [] = true
is_empty (i ∷ rest) = false

module _ {M U : Type 0} (shuffle : ℕ → List ℕ → List ℕ) where
  unfoldable pub get_ready_cpus : Simulator M U → Simulator M U
  unfolding ready_from
  get_ready_cpus s =
      let found = ready_from 0 s.cores in
      if is_empty found
      then record s { ready_cores = [] }
      else record s { ready_cores = shuffle s.shuffles found; shuffles = s.shuffles + 1 }

module _ {M U : Type 0} (p : MemoryPort M) (fetch : ℕ → ℕ → M → Outcome (List ℕ) × M)
    (isa_test : Bool) (blank : RiscvState) where
  -- A step of the core at a place of the list, if there is one.
  unfoldable pub step_found :
      ℕ → Option RiscvState → Simulator M U → Outcome (Unit {0}) × Simulator M U
  unfolding step_core
  step_found i none s = (undefined, s)
  step_found i (some core) s =
      let (r, run) = step_core p fetch isa_test blank (record {
        core = core;
        memory = s.memory;
        instr_count = s.instr_count;
        failed = s.failed;
      }) in
      (
        r,
        record s {
          cores = set_core i run.core s.cores;
          memory = run.memory;
          instr_count = run.instr_count;
          failed = run.failed;
        },
      )

  -- What follows the step of a core: `rest` is what the further cores come to.
  unfoldable pub after_core :
      Outcome (Unit {0}) × Simulator M U
      → Outcome (Unit {0}) × Simulator M U
      → Outcome (Unit {0}) × Simulator M U
  after_core (done _, t) rest = rest
  after_core (runtime_error, t) rest = (done tt, record t { failed = true })
  after_core (thrown e, t) rest = (thrown e, t)
  after_core (undefined, t) rest = (undefined, t)

  unfoldable pub step_cores : List ℕ → Simulator M U → Outcome (Unit {0}) × Simulator M U
  unfolding step_found after_core
  step_cores [] s = (done tt, s)
  step_cores (i ∷ ready_cores) s =
      let stepped = step_found i (core_at i s.cores) s in
      let rest = step_cores ready_cores stepped.1 in
      if s.failed then (done tt, s) else after_core stepped rest

-- ServiceDevices signals to the first core. Without cores the loop does not get this far.
unfoldable pub service_first :
    {U : Type 0} → (U → U × Bool) → Devices U → List RiscvState → Devices U × List RiscvState
unfolding service_devices
service_first service_uart d [] = (d, [])
service_first service_uart d (core ∷ cores) =
    let (after, signalled) = service_devices service_uart d core in (after, signalled ∷ cores)

-- AdvanceClock and ServiceDevices.
unfoldable pub advance : {M U : Type 0} → (U → U × Bool) → Simulator M U → Simulator M U
unfolding service_first
advance service_uart s =
    let (devices, cores) = service_first service_uart s.devices s.cores in
    record s { clock = u64 (s.clock + 1); devices = devices; cores = cores }

-- `max_instrs` is MaxInstrs, where a negative one is none.
module _ {M U : Type 0} (p : MemoryPort M) (fetch : ℕ → ℕ → M → Outcome (List ℕ) × M)
    (isa_test : Bool) (blank : RiscvState) (service_uart : U → U × Bool)
    (shuffle : ℕ → List ℕ → List ℕ) (max_instrs : Option ℕ) where
  unfoldable pub goes_on : Simulator M U → Bool
  unfolding instruction_count_exceeded sleeping_cores
  goes_on s =
      not s.failed
      && (not (instruction_count_exceeded max_instrs s.instr_count)
          && (not (is_empty s.ready_cores) || sleeping_cores s.cores))

  -- What the loop does after the cores were stepped.
  unfoldable pub tick : Simulator M U → Simulator M U
  unfolding advance get_ready_cpus
  tick s = get_ready_cpus shuffle (advance service_uart s)

  -- What follows StepCores in the loop, if no exception leaves it.
  unfoldable pub after_step_cores : Outcome (Unit {0}) × Simulator M U → Option (Simulator M U)
  unfolding tick
  after_step_cores (done _, t) = some (tick t)
  after_step_cores (_, t) = none

  -- The body of the loop.
  unfoldable pub turn : Simulator M U → Option (Simulator M U)
  unfolding step_cores after_step_cores
  turn s = after_step_cores (step_cores p fetch isa_test blank s.ready_cores s)

  -- How the loop goes on from a state.
  pub data Turns : Simulator M U → Simulator M U → Type 0 where
    here : {s : Simulator M U} → Turns s s
    again : {s t u : Simulator M U} → Turns s t → goes_on t ≡ true → turn t ≡ some u → Turns s u

-- What Go does before the loop, where LoadTestImage gives no error code.
unfoldable pub start : {M U : Type 0} → (ℕ → List ℕ → List ℕ) → Simulator M U → Simulator M U
unfolding get_ready_cpus
start shuffle s = record (get_ready_cpus shuffle s) { failed = false; instr_count = 0 }

-- Whether Go returns 0, from the state at the end of the loop.
unfoldable pub all_halted : List RiscvState → Bool
all_halted [] = true
all_halted (core ∷ cores) = core.end_test && all_halted cores

unfoldable pub succeeds : {M U : Type 0} → Simulator M U → Bool
unfolding all_halted
succeeds s = not s.failed && all_halted s.cores
