-- ===== src/Debug/Poll.antt =====
-- Poll, PreStepChecks and PostStepChecks (src/debug_server.C), and the entries to them that
-- RiscvDebugServer has (include/riscv_debug_server.h). What the client sends is a list; a poll waits
-- when the list is at its end.
use dimebox.Common.{ℕ, Bool, true, false, not, ◌==◌, if◌then◌else◌, List, [], ◌∷◌}
use dimebox.Outcome.{Outcome, done}
use dimebox.State.{RiscvState}
use dimebox.Rsp.Text.{Text, length}
use dimebox.Rsp.Packet.{decode, acknowledge}
use dimebox.Rsp.Command.{Reply, response, uncaught, undefined, dispatch}
use dimebox.Debug.Session.{Server, Session}
use dimebox.Debug.Breakpoints.{breakpoint_hit}
use dimebox.Debug.Memory.{MemoryPort}
use dimebox.Debug.Server.{
  core_match, clear_single_step, stop_listening, defer_response, send, acknowledge_breakpoint,
  handle,
}

-- What a read of the socket gives: text, or a std::runtime_error.
pub data Read : Type 0 where
  received : Text → Read
  read_error : Read

-- How one round of the loop ends: it is through, or an exception or undefined behaviour ends it.
pub data Round : Type 0 where
  through stopped not_defined : Round

-- How a poll ends: it returns, it waits for the client, or as a round.
pub data Polled : Type 0 where
  returns : Bool → Polled
  waits fails not_defined : Polled

module _ {M : Type 0} (port : MemoryPort M) (accepts : List Text → Text → Bool) where
  abbrev on_server : (Server → Server) → Session M → Session M
  on_server f s = record s { server = f s.server }

  -- From the response of Dispatch on.
  unfoldable pub respond : Text → Session M → Session M
  unfolding defer_response stop_listening send
  respond text s =
      let (deferred, after) = defer_response s.server in
      if length text == 0
      then s
      else if deferred
      then record s { server = stop_listening after }
      else record s { server = send accepts text after }

  unfoldable pub answer : Reply × Session M → Round × Session M
  unfolding respond
  answer (response text, s) = (Round.through, respond text s)
  answer (uncaught, s) = (Round.stopped, s)
  answer (undefined, s) = (Round.not_defined, s)

  -- A request that is decoded: its acknowledgement is sent if there is one, then its response.
  unfoldable pub serve : Text → Session M → Round × Session M
  unfolding acknowledge stop_listening dispatch handle answer
  serve client_request s =
      let ack = acknowledge client_request in
      let acked = record s { server = record s.server { sent = ack ∷ s.server.sent } } in
      if length ack == 0
      then answer (dispatch (handle port) client_request s)
      else if accepts s.server.sent ack
      then answer (dispatch (handle port) client_request acked)
      else (Round.through, on_server stop_listening s)

  -- What follows from the decoding of a message.
  unfoldable pub serve_decoded : Outcome Text → Session M → Round × Session M
  unfolding stop_listening serve
  serve_decoded (done client_request) s = serve client_request s
  serve_decoded Outcome.undefined s = (Round.not_defined, s)
  serve_decoded _ s = (Round.through, on_server stop_listening s)

  unfoldable pub round : Read → Session M → Round × Session M
  unfolding decode stop_listening serve_decoded
  round read_error s = (Round.through, on_server stop_listening s)
  round (received mbuf) s = serve_decoded (decode mbuf []) s

  -- The poll after a round, where `rest` is what the further rounds come to.
  unfoldable pub after_round :
      Round
      → List Read × Session M
      → Polled × (List Read × Session M)
      → Polled × (List Read × Session M)
  after_round Round.through now rest = rest
  after_round Round.stopped now rest = (fails, now)
  after_round Round.not_defined now rest = (Polled.not_defined, now)

  -- What is left of the list, too.
  unfoldable pub poll_loop : List Read → Session M → Polled × (List Read × Session M)
  unfolding round after_round
  poll_loop [] s =
      (if s.server.listening then waits else returns (not s.server.do_shutdown), ([], s))
  poll_loop (r ∷ reads) s =
      let (ended, t) = round r s in
      let rest = poll_loop reads t in
      if s.server.listening
      then after_round ended (reads, t) rest
      else (returns (not s.server.do_shutdown), (r ∷ reads, s))

  unfoldable pub poll : List Read → Session M → Polled × (List Read × Session M)
  unfolding poll_loop
  poll reads s = poll_loop reads (on_server (λ server. record server { listening = true }) s)

  -- Whether the checks before a step poll, and the session then.
  unfoldable pub do_poll : Session M → Bool × Session M
  unfolding core_match clear_single_step breakpoint_hit acknowledge_breakpoint
  do_poll s =
      if s.server.at_start
      then (true, on_server (λ server. record server { at_start = false }) s)
      else if not (core_match s.server.core s.server)
      then (false, s)
      else if s.server.do_step
      then (true, on_server clear_single_step s)
      else if breakpoint_hit s.pc s.server
      then (true, acknowledge_breakpoint accepts s.pc s)
      else (false, s)

  unfoldable pub pre_step_checks : List Read → Session M → Polled × (List Read × Session M)
  unfolding do_poll poll
  pre_step_checks reads s =
      let (polls, t) = do_poll s in if polls then poll reads t else (returns true, (reads, t))

  -- It returns true.
  unfoldable pub post_step_checks : Session M → Session M
  unfolding core_match acknowledge_breakpoint
  post_step_checks s =
      if s.server.at_start
      then on_server (λ server. record server { at_start = false }) s
      else if not (core_match s.server.core s.server)
      then s
      else if s.server.do_step
      then acknowledge_breakpoint accepts s.pc s
      else s

  unfoldable pub run_pre_step_checks :
      List Read → RiscvState → M → ℕ → Session M → Polled × (List Read × Session M)
  unfolding pre_step_checks
  run_pre_step_checks reads cpu memory pc s =
      pre_step_checks reads (record s { cpu = cpu; memory = memory; pc = pc })

  unfoldable pub run_post_step_checks : RiscvState → M → ℕ → Session M → Session M
  unfolding post_step_checks
  run_post_step_checks cpu memory pc s =
      post_step_checks (record s { cpu = cpu; memory = memory; pc = pc })
