-- ===== src/Simulator/Counts.antt =====
-- How many instructions a simulation runs (src/riscv_simulator.C).
use dimebox.Common.{
  ℕ, zero, suc, Bool, true, false, ap, ◌≡◌, ◌≤◌, refl, arith, ◌∙◌, ◌+◌, if◌then◌else◌, Option, none,
  some, List, [], ◌∷◌, Bool-cases, inl, inr,
}
use dimebox.Outcome.{Outcome, done, thrown, runtime_error, undefined}
use dimebox.State.{RiscvState, low_power_mode}
use dimebox.Instruction.Mnemonic.{Mnemonic}
use dimebox.Instruction.Machine.{MemoryPort}
use dimebox.Simulator.{
  Run, Devices, step_core, step_serviced, run_fetched, run_instruction, service_interrupt,
  next_instruction,
}
use dimebox.State.Copy.{update}
use dimebox.Simulator.Go.{
  Simulator, core_at, set_core, ready_from, is_empty, get_ready_cpus, step_found, after_core,
  step_cores, service_first,
}

-- The number of elements.
abbrev pub count : {A : Type 0} → List A → ℕ
count [] = 0
count (x ∷ xs) = suc (count xs)

count-set_core :
    (i : ℕ) (core : RiscvState) (cores : List RiscvState)
    → count (set_core i core cores) ≡ count cores
count-set_core i core [] = refl
count-set_core zero core (c ∷ cores) = refl
count-set_core (suc i) core (c ∷ cores) = ap suc (count-set_core i core cores)

count-ready_from : (i : ℕ) (cores : List RiscvState) → count (ready_from i cores) ≤ count cores
unfolding ready_from
count-ready_from i [] = omega arith
count-ready_from i (core ∷ cores) = ground (arith, count-ready_from (i + 1) cores)

module _ {M : Type 0} (p : MemoryPort M) (fetch : ℕ → ℕ → M → Outcome (List ℕ) × M)
    (isa_test : Bool) (blank : RiscvState) where
  run_instruction-count :
      (s : RiscvState) (name : Mnemonic) (size encoding : ℕ) (run : Run M)
      → (run_instruction p fetch isa_test s name size encoding run).1.instr_count
        ≤ run.instr_count + 1
  unfolding run_instruction
  run_instruction-count s name size encoding run = ground arith

  run_fetched-count :
      (s : RiscvState) (run : Run M) (fetched : Outcome (Mnemonic × (ℕ × ℕ)) × M)
      → (run_fetched p fetch isa_test s run fetched).1.instr_count ≤ run.instr_count + 1
  unfolding run_fetched
  run_fetched-count s run (done (name, (size, encoding)), memory) =
      run_instruction-count s name size encoding (record run { memory = memory })
  run_fetched-count s run (thrown e, memory) = omega arith
  run_fetched-count s run (runtime_error, memory) = omega arith
  run_fetched-count s run (undefined, memory) = omega arith

  step_serviced-count :
      (run : Run M) (serviced : Option RiscvState)
      → (step_serviced p fetch isa_test run serviced).1.instr_count ≤ run.instr_count + 1
  unfolding step_serviced
  step_serviced-count run none = omega arith
  step_serviced-count run (some s) = elim (Bool-cases (low_power_mode s)) [
    | inl e ↦ rw e (omega arith)
    | inr e ↦ rw e (run_fetched-count s run (next_instruction p fetch s _ run.memory))
  ]

  step_core-count :
      (run : Run M) → (step_core p fetch isa_test blank run).1.instr_count ≤ run.instr_count + 1
  unfolding step_core
  step_core-count run = step_serviced-count run (service_interrupt (update run.core blank))

-- A simulation that keeps its number of cores and runs at most `most` instructions.
abbrev pub Within : {M U : Type 0} → ℕ → ℕ → Simulator M U → Type 0
Within n most t = (count t.cores ≡ n) × (t.instr_count ≤ most)

if-Within :
    {M U : Type 0} (n most : ℕ) (b : Bool) (x y : Outcome (Unit {0}) × Simulator M U)
    → Within n most x.1
    → Within n most y.1
    → Within n most (if b then x else y).1
if-Within n most true x y h k = h
if-Within n most false x y h k = k

module _ {M U : Type 0} (p : MemoryPort M) (fetch : ℕ → ℕ → M → Outcome (List ℕ) × M)
    (isa_test : Bool) (blank : RiscvState) where
  step_found-count :
      (i : ℕ) (found : Option RiscvState) (s : Simulator M U)
      → Within (count s.cores) (s.instr_count + 1) (step_found p fetch isa_test blank i found s).1
  unfolding step_found
  step_found-count i none s = (refl, omega arith)
  step_found-count i (some core) s =
      (count-set_core i _ s.cores, step_core-count p fetch isa_test blank _)

  after_core-count :
      (n most : ℕ) (stepped rest : Outcome (Unit {0}) × Simulator M U)
      → Within n most stepped.1
      → Within n most rest.1
      → Within n most (after_core p fetch isa_test blank stepped rest).1
  unfolding after_core
  after_core-count n most (done _, t) rest h k = k
  after_core-count n most (thrown e, t) rest h k = h
  after_core-count n most (runtime_error, t) rest h k = h
  after_core-count n most (undefined, t) rest h k = h

  pub step_cores-count :
      (ready_cores : List ℕ) (s : Simulator M U) (n most : ℕ)
      → Within n most s
      → Within n (most + count ready_cores) (step_cores p fetch isa_test blank ready_cores s).1
  unfolding step_cores
  step_cores-count [] s n most (same, h) = (same, omega arith)
  step_cores-count (i ∷ ready_cores) s n most (same, h) =
      let (kept, one) = step_found-count i (core_at i s.cores) s in
      let (kept_too, more) =
        step_cores-count ready_cores (step_found p fetch isa_test blank i (core_at i s.cores) s).1 n
          (most + 1) (kept ∙ same, omega arith) in
      if-Within n (most + count (i ∷ ready_cores)) s.failed _ _ (same, omega arith)
        (after_core-count n (most + count (i ∷ ready_cores)) _ _ (kept ∙ same, omega arith)
          (kept_too, omega arith))

pub service_first-count :
    {U : Type 0} (service_uart : U → U × Bool) (d : Devices U) (cores : List RiscvState)
    → count (service_first service_uart d cores).1 ≡ count cores
unfolding service_first
service_first-count service_uart d [] = refl
service_first-count service_uart d (core ∷ cores) = refl

-- A shuffle that loses no place and adds none.
abbrev pub Keeps : (ℕ → List ℕ → List ℕ) → Type 0
Keeps shuffle = (n : ℕ) (places : List ℕ) → count (shuffle n places) ≡ count places

-- What holds after each turn: no more ready cores than cores.
abbrev pub Bounded : {M U : Type 0} → ℕ → ℕ → Simulator M U → Type 0
Bounded n most s = Within n most s × (count s.ready_cores ≤ n)

module _ {M U : Type 0} (shuffle : ℕ → List ℕ → List ℕ) (keeps : Keeps shuffle) where
  pub get_ready_cpus-Bounded :
      (n most : ℕ) (s : Simulator M U) → Within n most s → Bounded n most (get_ready_cpus shuffle s)
  unfolding get_ready_cpus
  get_ready_cpus-Bounded n most s (same, h) = elim (Bool-cases (is_empty (ready_from 0 s.cores))) [
    | inl e ↦ rw e ((same, h), omega arith)
    | inr e ↦
        let few = count-ready_from 0 s.cores in
        let all = keeps s.shuffles (ready_from 0 s.cores) in rw e ((same, h), omega arith)
  ]
