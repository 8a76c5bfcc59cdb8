-- ===== src/Simulator/Limit.antt =====
-- The limit of a simulation on the instructions it runs, in the loop of Go (src/riscv_simulator.C).
use mathlib.Core.Path.{subst}
use dimebox.Common.{ℕ, Bool, true, ◌≡◌, ◌≤◌, ◌+◌, ◌∙◌, refl, arith, Option, none, some, List}
use dimebox.Outcome.{Outcome, done, thrown, runtime_error, undefined}
use dimebox.State.{RiscvState}
use dimebox.Instruction.Machine.{MemoryPort}
use dimebox.Simulator.{instruction_count_exceeded}
use dimebox.Simulator.Go.{
  Simulator, goes_on, tick, turn, after_step_cores, start, Turns, here, again, step_cores, advance,
}
use dimebox.Simulator.Counts.{
  count, Within, Keeps, Bounded, get_ready_cpus-Bounded, step_cores-count, service_first-count,
}

-- The bounds after a turn, if there is one.
abbrev Follows : {M U : Type 0} → ℕ → ℕ → Option (Simulator M U) → Type 0
Follows n most none = Unit {0}
Follows n most (some s) = Bounded n most s

module _ {M U : Type 0} (p : MemoryPort M) (fetch : ℕ → ℕ → M → Outcome (List ℕ) × M)
    (isa_test : Bool) (blank : RiscvState) (service_uart : U → U × Bool)
    (shuffle : ℕ → List ℕ → List ℕ) (keeps : Keeps shuffle) (m : ℕ) where
  tick-Bounded :
      (n most : ℕ) (s : Simulator M U)
      → Within n most s
      → Bounded n most (tick p fetch isa_test blank service_uart shuffle (some m) s)
  unfolding tick advance
  tick-Bounded n most s (same, h) =
      get_ready_cpus-Bounded shuffle keeps n most (advance service_uart s)
        (service_first-count service_uart s.devices s.cores ∙ same, h)

  after_step_cores-Follows :
      (n most : ℕ) (stepped : Outcome (Unit {0}) × Simulator M U)
      → Within n most stepped.1
      → Follows n most
          (after_step_cores p fetch isa_test blank service_uart shuffle (some m) stepped)
  unfolding after_step_cores
  after_step_cores-Follows n most (done _, t) h = tick-Bounded n most t h
  after_step_cores-Follows n most (thrown e, t) h = tt
  after_step_cores-Follows n most (runtime_error, t) h = tt
  after_step_cores-Follows n most (undefined, t) h = tt

  goes_on-limit :
      (s : Simulator M U)
      → goes_on p fetch isa_test blank service_uart shuffle (some m) s ≡ true
      → s.instr_count ≤ m
  unfolding goes_on instruction_count_exceeded
  goes_on-limit s e = ground arith

  -- A turn that the limit lets begin runs at most one instruction for each core.
  turn-Follows :
      (n most : ℕ) (s : Simulator M U)
      → Bounded n most s
      → goes_on p fetch isa_test blank service_uart shuffle (some m) s ≡ true
      → Follows n (m + n) (turn p fetch isa_test blank service_uart shuffle (some m) s)
  unfolding turn
  turn-Follows n most s ((same, h), few) e =
      let limit = goes_on-limit s e in
      let (kept, more) =
        step_cores-count p fetch isa_test blank s.ready_cores s n m (same, limit) in
      after_step_cores-Follows n (m + n) (step_cores p fetch isa_test blank s.ready_cores s)
        (kept, omega arith)

  Turns-Bounded :
      (n : ℕ) (s t : Simulator M U)
      → Bounded n (m + n) s
      → Turns p fetch isa_test blank service_uart shuffle (some m) s t
      → Bounded n (m + n) t
  Turns-Bounded n s _ h here = h
  Turns-Bounded n s u h (again {t = t} before e turned) =
      subst (Follows n (m + n)) turned (turn-Follows n (m + n) t (Turns-Bounded n s t h before) e)

  start-Bounded :
      (s : Simulator M U) → Bounded (count s.cores) (m + count s.cores) (start shuffle s)
  unfolding start
  start-Bounded s =
      let ((same, h), few) =
        get_ready_cpus-Bounded shuffle keeps (count s.cores) s.instr_count s (refl, omega arith) in
      ((same, omega arith), few)

  -- With a limit of `m` instructions, and a random_shuffle that keeps the number of its elements,
  -- no state that the loop of Go comes to has counted more than `m` instructions and one more for
  -- each core, and the number of cores never changes.
  pub Turns-count :
      (s t : Simulator M U)
      → Turns p fetch isa_test blank service_uart shuffle (some m) (start shuffle s) t
      → (t.instr_count ≤ m + count s.cores) × (count t.cores ≡ count s.cores)
  Turns-count s t turns =
      let ((same, h), few) =
        Turns-Bounded (count s.cores) (start shuffle s) t (start-Bounded s) turns in
      (h, same)
