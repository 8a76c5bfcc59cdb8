-- ===== src/Simulator/Total.antt =====
-- How many instructions a simulation runs, against its count and its limit, in the loop of Go
-- (src/riscv_simulator.C).
use mathlib.Core.Path.{subst}
use dimebox.Common.{
  ℕ, Bool, true, false, ◌≡◌, ◌≤◌, refl, arith, ◌∙◌, ◌+◌, if◌then◌else◌, Option, none, some, List,
  [], ◌∷◌, Bool-cases, inl, inr,
}
use dimebox.Outcome.{Outcome, done, thrown, runtime_error, undefined}
use dimebox.State.{RiscvState}
use dimebox.Instruction.Machine.{MemoryPort}
use dimebox.Simulator.Go.{
  Simulator, core_at, ready_from, is_empty, get_ready_cpus, step_found, after_core, step_cores,
  advance, tick, turn, after_step_cores, start, Turns, here, again,
}
use dimebox.Simulator.Counts.{count, Keeps}
use dimebox.Simulator.Limit.{Turns-count}
use dimebox.Simulator.Ran.{is_done, ran, step_core-ran}

module _ {M U : Type 0} (p : MemoryPort M) (fetch : ℕ → ℕ → M → Outcome (List ℕ) × M)
    (isa_test : Bool) (blank : RiscvState) where
  abbrev ran_found : Option RiscvState → Simulator M U → ℕ
  ran_found none s = 0
  ran_found (some core) s =
      ran p fetch isa_test blank
        (record { core = core; memory = s.memory; instr_count = s.instr_count; failed = s.failed })

  -- How many of the ready cores run an instruction, up to the first that ends in an exception.
  abbrev pub ran_cores : List ℕ → Simulator M U → ℕ
  ran_cores [] s = 0
  ran_cores (i ∷ ready_cores) s =
      let stepped = step_found p fetch isa_test blank i (core_at i s.cores) s in
      let rest = ran_cores ready_cores stepped.1 in
      if s.failed
      then 0
      else ran_found (core_at i s.cores) s + (if is_done stepped.0 then rest else 0)

  step_found-ran :
      (i : ℕ) (found : Option RiscvState) (s : Simulator M U)
      → s.failed ≡ false
      → (step_found p fetch isa_test blank i found s).1.instr_count
        ≡ s.instr_count + ran_found found s
  unfolding step_found
  step_found-ran i none s h = omega arith
  step_found-ran i (some core) s h = step_core-ran p fetch isa_test blank _ h

  after_core-ran :
      (n k : ℕ) (stepped rest : Outcome (Unit {0}) × Simulator M U)
      → stepped.1.instr_count ≡ n
      → rest.1.instr_count ≡ stepped.1.instr_count + k
      → (after_core p fetch isa_test blank stepped rest).1.instr_count
        ≡ n + (if is_done stepped.0 then k else 0)
  unfolding after_core
  after_core-ran n k (done _, t) rest h l = omega arith
  after_core-ran n k (thrown e, t) rest h l = omega arith
  after_core-ran n k (runtime_error, t) rest h l = omega arith
  after_core-ran n k (undefined, t) rest h l = omega arith

  if-ran :
      (b : Bool) (n k : ℕ) (x y : Outcome (Unit {0}) × Simulator M U)
      → x.1.instr_count ≡ n
      → (b ≡ false → y.1.instr_count ≡ n + k)
      → (if b then x else y).1.instr_count ≡ n + (if b then 0 else k)
  if-ran true n k x y h l = omega arith
  if-ran false n k x y h l = l refl

  step_cores-ran :
      (ready_cores : List ℕ) (s : Simulator M U)
      → (step_cores p fetch isa_test blank ready_cores s).1.instr_count
        ≡ s.instr_count + ran_cores ready_cores s
  unfolding step_cores
  step_cores-ran [] s = omega arith
  step_cores-ran (i ∷ ready_cores) s =
      let stepped = step_found p fetch isa_test blank i (core_at i s.cores) s in
      let k = ran_found (core_at i s.cores) s in
      let rest = step_cores p fetch isa_test blank ready_cores stepped.1 in
      let more = if is_done stepped.0 then ran_cores ready_cores stepped.1 else 0 in
      if-ran s.failed s.instr_count (k + more) (done tt, s)
        (after_core p fetch isa_test blank stepped rest) refl
        (λ ok.
          let h =
            after_core-ran (s.instr_count + k) (ran_cores ready_cores stepped.1) stepped rest
              (step_found-ran i (core_at i s.cores) s ok) (step_cores-ran ready_cores stepped.1) in
          omega (arith, h))

-- GetReadyCpus leaves the count.
get_ready_cpus-instr_count :
    {M U : Type 0} (shuffle : ℕ → List ℕ → List ℕ) (s : Simulator M U)
    → (get_ready_cpus shuffle s).instr_count ≡ s.instr_count
unfolding get_ready_cpus
get_ready_cpus-instr_count shuffle s = elim (Bool-cases (is_empty (ready_from 0 s.cores))) [
  | inl e ↦ rw e refl
  | inr e ↦ rw e refl
]

-- The count after a turn, if there is one.
abbrev Counted : {M U : Type 0} → ℕ → Option (Simulator M U) → Type 0
Counted n none = Unit {0}
Counted n (some s) = s.instr_count ≡ n

module _ {M U : Type 0} (p : MemoryPort M) (fetch : ℕ → ℕ → M → Outcome (List ℕ) × M)
    (isa_test : Bool) (blank : RiscvState) (service_uart : U → U × Bool)
    (shuffle : ℕ → List ℕ → List ℕ) (limit : Option ℕ) where
  -- How many instructions are run in the turns.
  abbrev pub ran_turns :
      {s t : Simulator M U} → Turns p fetch isa_test blank service_uart shuffle limit s t → ℕ
  ran_turns here = 0
  ran_turns (again {t = t} turns goes turned) =
      ran_turns turns + ran_cores p fetch isa_test blank t.ready_cores t

  after_step_cores-Counted :
      (stepped : Outcome (Unit {0}) × Simulator M U)
      → Counted stepped.1.instr_count
          (after_step_cores p fetch isa_test blank service_uart shuffle limit stepped)
  unfolding after_step_cores tick advance
  after_step_cores-Counted (done _, t) = get_ready_cpus-instr_count shuffle (advance service_uart t)
  after_step_cores-Counted (thrown e, t) = tt
  after_step_cores-Counted (runtime_error, t) = tt
  after_step_cores-Counted (undefined, t) = tt

  turn-ran :
      (s t : Simulator M U)
      → turn p fetch isa_test blank service_uart shuffle limit s ≡ some t
      → t.instr_count ≡ s.instr_count + ran_cores p fetch isa_test blank s.ready_cores s
  unfolding turn
  turn-ran s t turned =
      let stepped = step_cores p fetch isa_test blank s.ready_cores s in
      let counted : t.instr_count ≡ stepped.1.instr_count =
        subst (Counted stepped.1.instr_count) turned (after_step_cores-Counted stepped) in
      counted ∙ step_cores-ran p fetch isa_test blank s.ready_cores s

  Turns-ran :
      {s t : Simulator M U}
      → (turns : Turns p fetch isa_test blank service_uart shuffle limit s t)
      → t.instr_count ≡ s.instr_count + ran_turns turns
  Turns-ran here = omega arith
  Turns-ran (again {t = t} {u = u} turns goes turned) =
      let before = Turns-ran turns in let now = turn-ran t u turned in omega (arith, before, now)

-- With a limit of `m` instructions, and a random_shuffle that keeps the number of its elements, the
-- loop of Go runs at most `m` instructions and one more for each core, however many turns it makes,
-- and its count is always the number of instructions that the turns ran. A step runs one if the core
-- is awake once its interrupt is serviced, and it ends with no exception and no error code.
pub Turns-ran_limited :
    {M U : Type 0} (p : MemoryPort M) (fetch : ℕ → ℕ → M → Outcome (List ℕ) × M) (isa_test : Bool)
    (blank : RiscvState) (service_uart : U → U × Bool) (shuffle : ℕ → List ℕ → List ℕ) (m : ℕ)
    (s t : Simulator M U)
    → Keeps shuffle
    → (turns : Turns p fetch isa_test blank service_uart shuffle (some m) (start shuffle s) t)
    → (ran_turns p fetch isa_test blank service_uart shuffle (some m) turns ≤ m + count s.cores)
      × (t.instr_count ≡ ran_turns p fetch isa_test blank service_uart shuffle (some m) turns)
unfolding start
Turns-ran_limited p fetch isa_test blank service_uart shuffle m s t keeps turns =
    let (bound, same) = Turns-count p fetch isa_test blank service_uart shuffle keeps m s t turns in
    let exact = Turns-ran p fetch isa_test blank service_uart shuffle (some m) turns in
    (omega (arith, bound, exact), omega (arith, exact))
