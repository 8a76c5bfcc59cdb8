-- ===== src/Debug/Tests.antt =====
-- The theorems on the debug server, for a session that has begun.
use dimebox.Common.{ℕ, Bool, true, false, ◌≡◌, ◌<◌, refl, arith, some, List, [], ◌∷◌}
use dimebox.State.Tests as State
use dimebox.Memory.{Memory}
use dimebox.Memory.Tests as Memory
use dimebox.Memory.RoundTrip.{IsConfigured}
use dimebox.Rsp.Text.{Text, codes}
use dimebox.Rsp.Command.{response, uncaught}
use dimebox.Debug.Session.{Session}
use dimebox.Debug.Values.{le4}
use dimebox.Debug.Registers.{read_register, write_register}
use dimebox.Debug.RegisterLaws.{read_request, write_request, read_register-write_register}
use dimebox.Debug.Breakpoints.{breakpoint_hit, watchpoint_hit, set_range}
use dimebox.Debug.BreakpointLaws.{breakpoint_hit-set_range}
use dimebox.Debug.Memory.{spell_bytes, read_bytes, write_bytes, read_memory, write_memory}
use dimebox.Debug.Commands as Commands
use dimebox.Debug.Long.{read_bytes-long}
use dimebox.Debug.Port.{port}
use dimebox.Debug.Poll.{Read, received, read_error, poll}
use dimebox.Debug.PollLaws.{sent_of}
use dimebox.Debug.Transcript.{Exchanges, poll-Exchanges}
use dimebox.Debug.Endings.{is_waiting, poll-error}

abbrev session : Session Memory
session = record {
  server = record {
    core = 0;
    at_start = false;
    listening = false;
    defer_response = false;
    do_shutdown = false;
    do_step = false;
    instr_breakpoints = [];
    data_breakpoints = [];
    sent = [];
  };
  cpu = State.core;
  memory = Memory.memory;
  pc = 0x100;
}

abbrev rand : ℕ → ℕ
rand n = n

abbrev accepts : List Text → Text → Bool
accepts before text = true

read_register-write_register_example :
    (let (reply, t) = write_register (write_request 5 0x1234) session in
      (reply ≡ response (codes "OK")) × (read_register (read_request 5) t ≡ response (le4 0x1234)))
read_register-write_register_example =
    read_register-write_register 5 5 0x1234 session (omega arith) (omega arith) (omega arith)

breakpoint_hit-set_range_example :
    (breakpoint_hit 0x102 (set_range 0 0x100 4 session.server) ≡ true)
    × ((a size : ℕ)
        → watchpoint_hit a size (set_range 0 0x100 4 session.server)
          ≡ watchpoint_hit a size session.server)
unfolding breakpoint_hit
breakpoint_hit-set_range_example =
    breakpoint_hit-set_range 0x100 4 0x102 session.server (omega arith) (omega arith) (omega arith)

abbrev reads : List Read
reads = received (codes "$g#67") ∷ read_error ∷ []

poll-Exchanges_example :
    Exchanges (sent_of session) (sent_of (poll (port rand) accepts reads session).1.1)
poll-Exchanges_example = poll-Exchanges (port rand) accepts reads session

poll-error_example : is_waiting (poll (port rand) accepts reads session).0 ≡ false
poll-error_example = poll-error (port rand) accepts (received (codes "$g#67") ∷ []) [] session

configured : IsConfigured session.memory
configured = record { bits = refl; lo = refl; hi = refl }

-- Every byte is 7.
abbrev sevens : ℕ → ℕ
sevens k = 7

small_bytes : (k : ℕ) → sevens k < 256
small_bytes k = omega arith

-- The address 0x1e, and four bytes.
read_memory-write_memory_example :
    (let (reply, t) =
        write_memory
          (port rand)
          (Commands.write_request (1 ∷ 14 ∷ []) 4 (spell_bytes 4 0 sevens))
          session in
      (reply ≡ response (codes "OK"))
      × ((read_memory (port rand) (Commands.read_request (1 ∷ 14 ∷ []) 4) t).0
          ≡ response (spell_bytes 4 0 sevens)))
read_memory-write_memory_example =
    Commands.read_memory-write_memory rand 1 (14 ∷ []) 4 sevens session configured refl refl
      small_bytes (omega arith) (omega arith) (omega arith)

read_bytes-long_example :
    (read_bytes (port rand) 0x1e 33 session ≡ (response (codes "E0"), session))
    × (write_bytes (port rand) 0x1e 33 (some (b':' ∷ spell_bytes 33 0 sevens)) session
        ≡ (uncaught, session))
read_bytes-long_example =
    read_bytes-long rand 0x1e 33 sevens session configured refl small_bytes (omega arith)
      (omega arith) (omega arith)
