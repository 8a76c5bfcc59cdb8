-- ===== src/Debug/Resume.antt =====
-- The requests to continue and to step, and the poll that reads one (src/debug_server.C).
use dimebox.Common.{Bool, true, false, not, ap, ◌≡◌, refl, ◌∙◌, if◌then◌else◌, List, [], ◌∷◌}
use dimebox.Outcome.{done}
use dimebox.Rsp.Text.{Text, codes}
use dimebox.Rsp.Scan.{scan_x}
use dimebox.Rsp.Packet.{decode, acknowledge, encode}
use dimebox.Rsp.Command.{choose, run_command, dispatch, encode_reply}
use dimebox.Debug.Session.{Session}
use dimebox.Debug.Memory.{MemoryPort}
use dimebox.Debug.Server.{
  handle, continue_server, step_server, set_single_step, stop_listening, defer_response,
}
use dimebox.Debug.Poll.{
  Read, received, Round, returns, poll, poll_loop, after_round, round, serve, serve_decoded, answer,
  respond,
}
use dimebox.Debug.PollLaws.{poll_loop-listening, poll_loop-idle}

decode-continue : decode (codes "$c#63") [] ≡ done (codes "c")
unfolding decode scan_x
decode-continue = refl

decode-step : decode (codes "$s#73") [] ≡ done (codes "s")
unfolding decode scan_x
decode-step = refl

-- What the client sends to step, or to continue.
abbrev pub resume_request : Bool → Text
resume_request true = codes "$s#73"
resume_request false = codes "$c#63"

module _ {M : Type 0} where
  -- The session that a request to continue leaves, or to step when `steps` holds.
  abbrev pub resumed : Bool → Session M → Session M
  resumed steps s = record s {
    server = record s.server {
      listening = false;
      defer_response = false;
      do_step = if steps then true else s.server.do_step;
      sent = (b'+' ∷ []) ∷ s.server.sent;
    };
  }

module _ {M : Type 0} (port : MemoryPort M) (accepts : List Text → Text → Bool) where
  serve-continue :
      (s : Session M)
      → accepts s.server.sent (b'+' ∷ []) ≡ true
      → serve port accepts (codes "c") s ≡ (Round.through, resumed false s)
  unfolding serve acknowledge dispatch choose run_command handle continue_server encode_reply answer
      respond defer_response stop_listening encode
  serve-continue s taken = rw taken refl

  serve-step :
      (s : Session M)
      → accepts s.server.sent (b'+' ∷ []) ≡ true
      → serve port accepts (codes "s") s ≡ (Round.through, resumed true s)
  unfolding serve acknowledge dispatch choose run_command handle step_server set_single_step
      encode_reply answer respond defer_response stop_listening encode
  serve-step s taken = rw taken refl

  round-resume :
      (steps : Bool) (s : Session M)
      → accepts s.server.sent (b'+' ∷ []) ≡ true
      → round port accepts (received (resume_request steps)) s ≡ (Round.through, resumed steps s)
  unfolding round
  round-resume true s taken =
      ap (λ decoded. serve_decoded port accepts decoded s) decode-step ∙ serve-step s taken
  round-resume false s taken =
      ap (λ decoded. serve_decoded port accepts decoded s) decode-continue ∙ serve-continue s taken

  pub poll-resume :
      (steps : Bool) (reads : List Read) (s : Session M)
      → accepts s.server.sent (b'+' ∷ []) ≡ true
      → poll port accepts (received (resume_request steps) ∷ reads) s
        ≡ (returns (not s.server.do_shutdown), (reads, resumed steps s))
  unfolding poll after_round
  poll-resume steps reads s taken =
      let listening = record s { server = record s.server { listening = true } } in
      poll_loop-listening port accepts (received (resume_request steps)) reads listening refl
      ∙ ap
          (λ (r : Round × Session M).
            after_round port accepts r.0 (reads, r.1) (poll_loop port accepts reads r.1))
          (round-resume steps listening taken)
      ∙ poll_loop-idle port accepts reads (resumed steps s) refl
