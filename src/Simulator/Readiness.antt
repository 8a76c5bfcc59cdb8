-- ===== src/Simulator/Readiness.antt =====
-- Which cores GetReadyCpus finds, and StepCores therefore steps, in the loop of Go
-- (src/riscv_simulator.C).
use mathlib.Core.List.{Memᴰ}
use mathlib.Core.Path.{subst}
use dimebox.Common.{
  ℕ, zero, suc, Bool, true, false, ◌≡◌, ◌⊎◌, ◌↔◌, ◌+◌, refl, arith, Option, none, some, List, [],
  ◌∷◌, inl, inr, if◌then◌else◌,
}
use dimebox.State.{RiscvState}
use dimebox.State.Trap.{ready}
use dimebox.Outcome.{Outcome, done, thrown, runtime_error, undefined}
use dimebox.Instruction.Machine.{MemoryPort}
use dimebox.Simulator.Go.{
  Simulator, core_at, ready_from, is_empty, get_ready_cpus, advance, tick, step_cores,
  after_step_cores, turn, start, Turns, here, again,
}

-- Whether there is a core and it is ready.
abbrev pub is_ready : Option RiscvState → Bool
is_ready none = false
is_ready (some core) = ready core

-- A place of a ready core in a list of cores whose places start at `i`.
abbrev IsReadyAt : ℕ → List RiscvState → ℕ → Type 0
IsReadyAt i cores place = (k : ℕ) × (place ≡ i + k) × (is_ready (core_at k cores) ≡ true)

further :
    (i : ℕ) (core : RiscvState) (cores : List RiscvState) (place : ℕ)
    → IsReadyAt (i + 1) cores place
    → IsReadyAt i (core ∷ cores) place
further i core cores place (k, same, r) = (suc k, omega arith, r)

Mem-if :
    (b : Bool) (first place : ℕ) (rest : List ℕ)
    → Memᴰ place (if b then first ∷ rest else rest)
    → ((b ≡ true) × (place ≡ first)) ⊎ Memᴰ place rest
Mem-if true first place rest (Memᴰ.head e) = inl (refl, e)
Mem-if true first place rest (Memᴰ.tail m) = inr m
Mem-if false first place rest m = inr m

if-Mem :
    (b : Bool) (first place : ℕ) (rest : List ℕ)
    → Memᴰ place rest
    → Memᴰ place (if b then first ∷ rest else rest)
if-Mem true first place rest m = Memᴰ.tail m
if-Mem false first place rest m = m

Mem-first :
    (b : Bool) (first place : ℕ) (rest : List ℕ)
    → b ≡ true
    → place ≡ first
    → Memᴰ place (if b then first ∷ rest else rest)
Mem-first b first place rest e same = rw e (Memᴰ.head same)

Mem-ready_from :
    (i : ℕ) (cores : List RiscvState) (place : ℕ)
    → Memᴰ place (ready_from i cores)
    → IsReadyAt i cores place
unfolding ready_from
Mem-ready_from i [] place m = elim m [ ]
Mem-ready_from i (core ∷ cores) place m =
    elim (Mem-if (ready core) i place (ready_from (i + 1) cores) m) [
      | inl (r, e) ↦ (0, omega arith, r)
      | inr m' ↦ further i core cores place (Mem-ready_from (i + 1) cores place m')
    ]

ready_from-Mem :
    (i : ℕ) (cores : List RiscvState) (place k : ℕ)
    → place ≡ i + k
    → is_ready (core_at k cores) ≡ true
    → Memᴰ place (ready_from i cores)
unfolding ready_from
ready_from-Mem i [] place k same r = ground arith
ready_from-Mem i (c ∷ cores) place zero same r =
    Mem-first (ready c) i place (ready_from (i + 1) cores) r (omega arith)
ready_from-Mem i (c ∷ cores) place (suc k) same r =
    if-Mem (ready c) i place (ready_from (i + 1) cores)
      (ready_from-Mem (i + 1) cores place k (omega arith) r)

-- A shuffle that keeps which places are in a list.
abbrev pub Permutes : (ℕ → List ℕ → List ℕ) → Type 0
Permutes shuffle =
    (n : ℕ) (places : List ℕ) (place : ℕ) → Memᴰ place (shuffle n places) ↔ Memᴰ place places

-- The ready cores of a state are just those of its cores that are ready.
abbrev pub Current : {M U : Type 0} → Simulator M U → Type 0
Current s = (place : ℕ) → Memᴰ place s.ready_cores ↔ (is_ready (core_at place s.cores) ≡ true)

both : {A B C : Type 0} → A ↔ B → B ↔ C → A ↔ C
both (to, of) (to_too, of_too) = (λ a. to_too (to a), λ c. of (of_too c))

ready_from-lem :
    (cores : List RiscvState) (place : ℕ)
    → Memᴰ place (ready_from 0 cores) ↔ (is_ready (core_at place cores) ≡ true)
ready_from-lem cores place = (
  λ m.
      let (k, same, r) = Mem-ready_from 0 cores place m in
      let e : k ≡ place = omega arith in subst (λ n. is_ready (core_at n cores) ≡ true) e r,
  λ r. ready_from-Mem 0 cores place place (omega arith) r,
)

Mem-empty :
    (places : List ℕ) (place : ℕ) → is_empty places ≡ true → Memᴰ place [] ↔ Memᴰ place places
Mem-empty [] place e = (λ m. m, λ m. m)
Mem-empty (first ∷ places) place e = ground arith

module _ {M U : Type 0} where
  if-Current :
      (b : Bool) (x y : Simulator M U)
      → (b ≡ true → Current x)
      → Current y
      → Current (if b then x else y)
  if-Current true x y h k = h refl
  if-Current false x y h k = k

  pub get_ready_cpus-Current :
      (shuffle : ℕ → List ℕ → List ℕ)
      → Permutes shuffle
      → (s : Simulator M U) → Current (get_ready_cpus shuffle s)
  unfolding get_ready_cpus
  get_ready_cpus-Current shuffle permutes s =
      let found = ready_from 0 s.cores in
      if-Current (is_empty found) (record s { ready_cores = [] })
        (record s { ready_cores = shuffle s.shuffles found; shuffles = s.shuffles + 1 })
        (λ e place. both (Mem-empty found place e) (ready_from-lem s.cores place))
        (λ place. both (permutes s.shuffles found place) (ready_from-lem s.cores place))

-- The same after a turn, if there is one.
abbrev CurrentAfter : {M U : Type 0} → Option (Simulator M U) → Type 0
CurrentAfter none = Unit {0}
CurrentAfter (some s) = Current s

module _ {M U : Type 0} (p : MemoryPort M) (fetch : ℕ → ℕ → M → Outcome (List ℕ) × M)
    (isa_test : Bool) (blank : RiscvState) (service_uart : U → U × Bool)
    (shuffle : ℕ → List ℕ → List ℕ) (permutes : Permutes shuffle) (limit : Option ℕ) where
  after_step_cores-Current :
      (stepped : Outcome (Unit {0}) × Simulator M U)
      → CurrentAfter (after_step_cores p fetch isa_test blank service_uart shuffle limit stepped)
  unfolding after_step_cores tick
  after_step_cores-Current (done _, t) =
      get_ready_cpus-Current shuffle permutes (advance service_uart t)
  after_step_cores-Current (thrown e, t) = tt
  after_step_cores-Current (runtime_error, t) = tt
  after_step_cores-Current (undefined, t) = tt

  turn-Current :
      (s t : Simulator M U)
      → turn p fetch isa_test blank service_uart shuffle limit s ≡ some t
      → Current t
  unfolding turn
  turn-Current s t turned =
      subst CurrentAfter turned
        (after_step_cores-Current (step_cores p fetch isa_test blank s.ready_cores s))

  start-Current : (s : Simulator M U) → Current (start shuffle s)
  unfolding start
  start-Current s = get_ready_cpus-Current shuffle permutes s

  -- With a random_shuffle that keeps which elements a list has: whenever the loop of Go tests its
  -- condition, the cores that it is about to step are just those that are ready then. A place
  -- is that of a ready core if there is a core and it is ready.
  pub Turns-Current :
      (s t : Simulator M U)
      → Turns p fetch isa_test blank service_uart shuffle limit (start shuffle s) t
      → (place : ℕ) → Memᴰ place t.ready_cores ↔ (is_ready (core_at place t.cores) ≡ true)
  Turns-Current s _ here = start-Current s
  Turns-Current s t (again {t = before} turns e turned) = turn-Current before t turned
