-- ===== src/Debug/Transcript.antt =====
-- What a poll sends, in its order (src/debug_server.C).
use dimebox.Common.{
  ℕ, Bool, true, ap, sym, ◌≡◌, refl, arith, ◌∙◌, List, [], ◌∷◌, ◌⊎◌, inl, inr, Bool-cases,
}
use mathlib.Core.Path.{subst}
use dimebox.Outcome.{Outcome, done}
use dimebox.Rsp.Text.{Text}
use dimebox.Rsp.Packet.{decode, acknowledge, encode}
use dimebox.Rsp.Command.{Reply, response, uncaught, undefined, dispatch}
use dimebox.Debug.Session.{Session}
use dimebox.Debug.Memory.{MemoryPort}
use dimebox.Debug.Server.{handle, send, stop_listening, defer_response}
use dimebox.Debug.Poll.{
  Read, received, read_error, Round, Polled, poll, poll_loop, after_round, round, serve,
  serve_decoded, answer, respond,
}
use dimebox.Debug.PollLaws.{
  sent_of, IsReply, dispatch-sent, dispatch-IsReply, poll_loop-listening, poll_loop-idle,
}

abbrev plus : Text
plus = b'+' ∷ []

-- A response is sent, or nothing.
abbrev Responded : List Text → List Text → Type 0
Responded before after = (after ≡ before) ⊎ ((t : Text) × (after ≡ encode t ∷ before))

-- One round: nothing is sent, or an acknowledgement, and behind it one packet at most.
abbrev Exchange : List Text → List Text → Type 0
Exchange before after = (after ≡ before) ⊎ Responded (plus ∷ before) after

-- Any number of rounds.
pub data Exchanges : List Text → List Text → Type 0 where
  nothing : {before : List Text} → Exchanges before before
  exchange :
      {before after last : List Text}
      → Exchange before after
      → Exchanges after last
      → Exchanges before last

module _ {M : Type 0} (port : MemoryPort M) (accepts : List Text → Text → Bool) where
  respond-sent :
      (text : Text) (s : Session M)
      → (sent_of (respond port accepts text s) ≡ sent_of s)
        ⊎ (sent_of (respond port accepts text s) ≡ text ∷ sent_of s)
  unfolding respond defer_response stop_listening send
  respond-sent text s = ground arith

  respond-Responded :
      (text : Text) (s : Session M)
      → IsReply (response text)
      → Responded (sent_of s) (sent_of (respond port accepts text s))
  unfolding respond IsReply
  respond-Responded text s (inl e) = rw e (inl refl)
  respond-Responded text s (inr (t, e)) = elim (respond-sent text s) [
    | inl same ↦ inl same
    | inr added ↦ inr (t, added ∙ ap (λ (u : Text). u ∷ sent_of s) e)
  ]

  answer-Responded :
      (r : Reply × Session M)
      → IsReply r.0
      → Responded (sent_of r.1) (sent_of (answer port accepts r).1)
  unfolding answer
  answer-Responded (response text, s) h = respond-Responded text s h
  answer-Responded (uncaught, s) h = inl refl
  answer-Responded (undefined, s) h = inl refl

  answered :
      (pdata : Text) (s : Session M)
      → Responded (sent_of s) (sent_of (answer port accepts (dispatch (handle port) pdata s)).1)
  answered pdata s =
      subst
        (λ (before : List Text).
          Responded before (sent_of (answer port accepts (dispatch (handle port) pdata s)).1))
        (dispatch-sent port pdata s)
        (answer-Responded (dispatch (handle port) pdata s) (dispatch-IsReply port pdata s))

  acknowledge-some : (c : ℕ) (pdata : Text) → acknowledge (c ∷ pdata) ≡ plus
  unfolding acknowledge
  acknowledge-some c pdata = ground arith

  serve-Exchange :
      (client_request : Text) (s : Session M)
      → Exchange (sent_of s) (sent_of (serve port accepts client_request s).1)
  unfolding serve stop_listening
  serve-Exchange [] s = inl refl
  serve-Exchange (c ∷ pdata) s = elim (Bool-cases (accepts (sent_of s) plus)) [
    | inl taken ↦
        rw (acknowledge-some c pdata, taken)
          (inr (
            answered (c ∷ pdata)
              (record s { server = record s.server { sent = plus ∷ s.server.sent } })))
    | inr refused ↦ rw (acknowledge-some c pdata, refused) (inl refl)
  ]

  serve_decoded-Exchange :
      (decoded : Outcome Text) (s : Session M)
      → Exchange (sent_of s) (sent_of (serve_decoded port accepts decoded s).1)
  unfolding serve_decoded stop_listening
  serve_decoded-Exchange (done client_request) s = serve-Exchange client_request s
  serve_decoded-Exchange (Outcome.thrown e) s = inl refl
  serve_decoded-Exchange Outcome.runtime_error s = inl refl
  serve_decoded-Exchange Outcome.undefined s = inl refl

  round-Exchange :
      (r : Read) (s : Session M) → Exchange (sent_of s) (sent_of (round port accepts r s).1)
  unfolding round stop_listening
  round-Exchange read_error s = inl refl
  round-Exchange (received mbuf) s = serve_decoded-Exchange (decode mbuf []) s

  after_round-Exchanges :
      (ended : Round) (before : List Text) (reads : List Read) (t : Session M)
      (rest : Polled × (List Read × Session M))
      → Exchange before (sent_of t)
      → Exchanges (sent_of t) (sent_of rest.1.1)
      → Exchanges before (sent_of (after_round port accepts ended (reads, t) rest).1.1)
  unfolding after_round
  after_round-Exchanges Round.through before reads t rest first more = exchange first more
  after_round-Exchanges Round.stopped before reads t rest first more = exchange first nothing
  after_round-Exchanges Round.not_defined before reads t rest first more = exchange first nothing

  poll_loop-Exchanges :
      (reads : List Read) (s : Session M)
      → Exchanges (sent_of s) (sent_of (poll_loop port accepts reads s).1.1)
  unfolding poll_loop
  poll_loop-Exchanges [] s = nothing
  poll_loop-Exchanges (r ∷ reads) s =
      let (ended, t) = round port accepts r s in
      elim (Bool-cases s.server.listening) [
        | inl e ↦
            subst (λ (p : Polled × (List Read × Session M)). Exchanges (sent_of s) (sent_of p.1.1))
              (sym (poll_loop-listening port accepts r reads s e))
              (after_round-Exchanges ended (sent_of s) reads t (poll_loop port accepts reads t)
                (round-Exchange r s) (poll_loop-Exchanges reads t))
        | inr e ↦
            subst (λ (p : Polled × (List Read × Session M)). Exchanges (sent_of s) (sent_of p.1.1))
              (sym (poll_loop-idle port accepts (r ∷ reads) s e)) nothing
      ]

  -- Whatever the client sends, a poll sends rounds of an acknowledgement and behind it one packet at
  -- most, however it ends.
  pub poll-Exchanges :
      (reads : List Read) (s : Session M)
      → Exchanges (sent_of s) (sent_of (poll port accepts reads s).1.1)
  unfolding poll
  poll-Exchanges reads s =
      poll_loop-Exchanges reads (record s { server = record s.server { listening = true } })
