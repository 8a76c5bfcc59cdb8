-- ===== src/Simulator/Tests.antt =====
-- The theorems on the simulator, at a core that sleeps at a WFI and at one that runs NOPs.
use mathlib.Core.List.{Memᴰ}
use dimebox.Common.{
  ℕ, Bool, true, false, ◌≡◌, ◌≤◌, ◌↔◌, ◌+◌, refl, arith, u32, ◌==◌, if◌then◌else◌, Option, none,
  some, inl, List, [], ◌∷◌,
}
use dimebox.Exceptions.{SimException, cause}
use dimebox.Outcome.{Outcome, done, thrown, runtime_error}
use dimebox.State.{
  RiscvState, low_power_mode, mstatush, global_interrupts_enabled, set_pc, set_privilege_level,
  set_mstatus, clear_low_power_mode, compressed_extension_enabled, set_gp, current_privilege_level,
}
use dimebox.State.Trap.{ready, take_interrupt, push_privilege_level}
use dimebox.State.Copy.{update}
use dimebox.State.CopyLaws.{IsStored}
use dimebox.State.Tests.{core}
use dimebox.Instruction.Machine.{MemoryPort, from_bytes}
use dimebox.Instruction.Factory.{new_instruction16}
use dimebox.Instruction.Step.Base.{step_integer}
use dimebox.Instruction.Fields.{decode, field_rd}
use dimebox.Instruction.Mnemonic.{format}
use dimebox.Simulator.{Run, Devices, service_interrupt, step_core}
use dimebox.Simulator.Readiness.{is_ready, Turns-Current}
use dimebox.Simulator.Go.{core_at, Simulator, Turns, here, again, start, goes_on, turn}
use dimebox.Simulator.Total.{ran_turns, Turns-ran_limited}
use dimebox.Simulator.Wake.{service_interrupt-ready, step_core-thrown, IsUnread, at_second}
use dimebox.Simulator.Alarm.{serve, serve-ready}

-- Asleep in machine mode, with the timer interrupt enabled.
abbrev sleeper : RiscvState
sleeper = record core { machine_state = 0x13; mie = 0x80; mip = 0 }

-- The same when the timer has signalled its interrupt.
abbrev woken : RiscvState
woken = record sleeper { mip = 0x80 }

woken-IsStored : IsStored woken
unfolding mstatush
woken-IsStored = record {
  status = record { within = refl; not_reserved = refl };
  status_h = refl;
  extensions = refl;
  aligned = inl refl;
}

ready-woken : ready woken ≡ true
unfolding ready low_power_mode global_interrupts_enabled
ready-woken = refl

service_interrupt-ready_example :
    (t : RiscvState) × (service_interrupt (update woken core) ≡ some t) × (low_power_mode t ≡ false)
service_interrupt-ready_example = service_interrupt-ready woken core woken-IsStored ready-woken

abbrev devices : Devices (Unit {0})
devices = record {
  timer = record {
    base_address = 0x2000000;
    extent = 0xffff;
    is_implemented = true;
    timer = 5;
    timer_advance = 1;
    timer_compare = 8;
  };
  uart1 = tt;
  uart_is_implemented = true;
}

abbrev quiet : Unit {0} → Unit {0} × Bool
quiet u = (u, false)

serve-ready_example : ready (serve quiet 3 devices sleeper) ≡ true
serve-ready_example =
    serve-ready quiet 2 devices sleeper refl (omega arith) (omega arith) (omega arith) refl refl
      refl

abbrev no_memory : MemoryPort (Unit {0})
no_memory = record {
  read_memory = λ address size buffer m. (runtime_error, m);
  write_memory = λ address size aligned buffer m. (runtime_error, m);
}

abbrev or_core : Option RiscvState → RiscvState
or_core none = core
or_core (some s) = s

-- Memory that gives the first half of a NOP and throws for the whole of it.
abbrev fetch_half : ℕ → ℕ → Unit {0} → Outcome (List ℕ) × Unit {0}
fetch_half address size m =
    if size == 2 then (done (0x13 ∷ 0 ∷ []), m) else (thrown SimException.internal_error, m)

abbrev run : Run (Unit {0})
run = record { core = woken; memory = tt; instr_count = 7; failed = false }

-- The core when its interrupt has been serviced.
abbrev serviced : RiscvState
serviced = or_core (service_interrupt (update woken core))

served : service_interrupt (update woken core) ≡ some serviced
unfolding service_interrupt global_interrupts_enabled update mstatush
served = refl

half-IsUnread :
    IsUnread no_memory fetch_half serviced (u32 serviced.pc) tt SimException.internal_error tt
unfolding new_instruction16 compressed_extension_enabled service_interrupt global_interrupts_enabled
    update mstatush take_interrupt set_pc push_privilege_level set_privilege_level set_mstatus
    clear_low_power_mode from_bytes
half-IsUnread = at_second (0x13 ∷ 0 ∷ []) tt refl refl refl

step_core-thrown_example :
    step_core no_memory fetch_half false core run ≡ (done tt, record run { failed = true })
step_core-thrown_example =
    step_core-thrown no_memory fetch_half false core serviced run tt SimException.internal_error
      woken-IsStored ready-woken served half-IsUnread

-- Memory that holds NOPs everywhere.
abbrev fetch_nop : ℕ → ℕ → Unit {0} → Outcome (List ℕ) × Unit {0}
fetch_nop address size m = (done (0x13 ∷ 0 ∷ 0 ∷ 0 ∷ []), m)

-- Two cores, the first of them asleep.
abbrev two_cores : Simulator (Unit {0}) (Unit {0})
two_cores = record {
  cores = sleeper ∷ core ∷ [];
  memory = tt;
  devices = devices;
  clock = 0;
  instr_count = 9;
  failed = false;
  ready_cores = [];
  shuffles = 0;
}

abbrev in_order : ℕ → List ℕ → List ℕ
in_order n places = places

abbrev or_same :
    Simulator (Unit {0}) (Unit {0})
    → Option (Simulator (Unit {0}) (Unit {0}))
    → Simulator (Unit {0}) (Unit {0})
or_same s none = s
or_same s (some t) = t

abbrev started : Simulator (Unit {0}) (Unit {0})
started = start in_order two_cores

abbrev turned : Simulator (Unit {0}) (Unit {0})
turned = or_same started (turn no_memory fetch_nop false core quiet in_order (some 0) started)

turned-instr_count : turned.instr_count ≡ 1
unfolding start turn global_interrupts_enabled mstatush take_interrupt set_pc push_privilege_level
    set_privilege_level set_mstatus clear_low_power_mode compressed_extension_enabled step_integer
    decode format set_gp field_rd current_privilege_level cause
turned-instr_count = refl

one_turn : Turns no_memory fetch_nop false core quiet in_order (some 0) started turned
unfolding start goes_on turn global_interrupts_enabled mstatush take_interrupt set_pc
    push_privilege_level set_privilege_level set_mstatus clear_low_power_mode
    compressed_extension_enabled step_integer decode format set_gp field_rd current_privilege_level
    cause
one_turn = again here refl refl

Turns-ran_limited_example :
    (ran_turns no_memory fetch_nop false core quiet in_order (some 0) one_turn ≤ 0 + 2)
    × (turned.instr_count
        ≡ ran_turns no_memory fetch_nop false core quiet in_order (some 0) one_turn)
Turns-ran_limited_example =
    Turns-ran_limited no_memory fetch_nop false core quiet in_order 0 two_cores turned
      (λ n places. refl) one_turn

Turns-Current_example : Memᴰ 1 turned.ready_cores ↔ (is_ready (core_at 1 turned.cores) ≡ true)
Turns-Current_example =
    Turns-Current no_memory fetch_nop false core quiet in_order (λ n places place. (λ m. m, λ m. m))
      (some 0) two_cores turned one_turn 1
