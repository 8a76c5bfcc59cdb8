-- ===== src/Debug/Stepping.antt =====
-- The checks behind an instruction and before the next one, after a request to continue or to step
-- (src/debug_server.C).
use dimebox.Common.{ℕ, Bool, true, false, if◌then◌else◌, List, ◌∷◌}
use dimebox.Rsp.Text.{Text}
use dimebox.Rsp.Packet.{encode}
use dimebox.State.{RiscvState}
use dimebox.Debug.Session.{Server, Session}
use dimebox.Debug.Memory.{MemoryPort}
use dimebox.Debug.Server.{stop_reply}
use dimebox.Debug.Poll.{Read, Polled, returns, poll}

module _ {M : Type 0} where
  -- The session with what the theorem supposes of it.
  abbrev started : Session M → Session M
  started s = record s { server = record s.server { at_start = false; do_step = false } }

  -- The session with another core, memory and PC.
  abbrev pub moved : RiscvState → M → ℕ → Session M → Session M
  moved cpu memory next s = record s { cpu = cpu; memory = memory; pc = next }

module _ {M : Type 0} (port : MemoryPort M) (accepts : List Text → Text → Bool) where
  -- The session when the answer for a breakpoint has been written, if the client takes it, and no
  -- step is asked for any more.
  abbrev pub answered : Session M → Session M
  answered s =
      let reply = encode (stop_reply s.cpu s.pc) in
      record s {
        server = record s.server {
          listening = false;
          do_step = false;
          sent = if accepts s.server.sent reply then reply ∷ s.server.sent else s.server.sent;
        };
      }

  abbrev poll_if : List Read → Bool × Session M → Polled × (List Read × Session M)
  poll_if later (polls, t) = if polls then poll port accepts later t else (returns true, (later, t))
