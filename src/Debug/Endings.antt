-- ===== src/Debug/Endings.antt =====
-- How a poll ends (src/debug_server.C).
use mathlib.Core.Path.{subst}
use dimebox.Common.{
  Bool, true, false, not, sym, ◌≡◌, refl, List, [], ◌∷◌, ◌++◌, inl, inr, Bool-cases,
}
use dimebox.Rsp.Text.{Text}
use dimebox.Debug.Session.{Session}
use dimebox.Debug.Memory.{MemoryPort}
use dimebox.Debug.PollLaws.{poll_loop-listening, poll_loop-idle, poll_loop-waits}
use dimebox.Debug.Server.{stop_listening}
use dimebox.Debug.Poll.{
  Read, read_error, Round, Polled, returns, waits, fails, poll, poll_loop, after_round, round,
}

abbrev pub is_waiting : Polled → Bool
is_waiting waits = true
is_waiting _ = false

module _ {M : Type 0} where
  -- A poll that returns says whether the session goes on, and one that waits has read all there is.
  abbrev IsEnding : Polled × (List Read × Session M) → Type 0
  IsEnding (returns goes_on, (reads, s)) =
      (s.server.listening ≡ false) × (goes_on ≡ not s.server.do_shutdown)
  IsEnding (waits, (reads, s)) = (s.server.listening ≡ true) × (reads ≡ [])
  IsEnding (fails, (reads, s)) = Unit
  IsEnding (Polled.not_defined, (reads, s)) = Unit

module _ {M : Type 0} (port : MemoryPort M) (accepts : List Text → Text → Bool) where
  after_round-IsEnding :
      (ended : Round) (now : List Read × Session M) (rest : Polled × (List Read × Session M))
      → IsEnding rest
      → IsEnding (after_round port accepts ended now rest)
  unfolding after_round
  after_round-IsEnding Round.through now rest h = h
  after_round-IsEnding Round.stopped now rest h = tt
  after_round-IsEnding Round.not_defined now rest h = tt

  poll_loop-IsEnding :
      (reads : List Read) (s : Session M) → IsEnding (poll_loop port accepts reads s)
  unfolding poll_loop
  poll_loop-IsEnding [] s = elim (Bool-cases s.server.listening) [
    | inl e ↦ subst IsEnding (sym (poll_loop-waits port accepts s e)) (e, refl)
    | inr e ↦ subst IsEnding (sym (poll_loop-idle port accepts [] s e)) (e, refl)
  ]
  poll_loop-IsEnding (r ∷ reads) s =
      let (ended, t) = round port accepts r s in
      elim (Bool-cases s.server.listening) [
        | inl e ↦ subst IsEnding (sym (poll_loop-listening port accepts r reads s e)) (
            after_round-IsEnding ended (reads, t) (poll_loop port accepts reads t)
              (poll_loop-IsEnding reads t))
        | inr e ↦ subst IsEnding (sym (poll_loop-idle port accepts (r ∷ reads) s e)) (e, refl)
      ]

  -- A poll that returns has stopped listening, and returns false just when the session is to shut
  -- down; one that waits for the client still listens, and has served all that it was sent.
  poll-IsEnding : (reads : List Read) (s : Session M) → IsEnding (poll port accepts reads s)
  unfolding poll
  poll-IsEnding reads s =
      poll_loop-IsEnding reads (record s { server = record s.server { listening = true } })

  after_round-Ends :
      (ended : Round) (now : List Read × Session M) (rest : Polled × (List Read × Session M))
      → is_waiting rest.0 ≡ false
      → is_waiting (after_round port accepts ended now rest).0 ≡ false
  unfolding after_round
  after_round-Ends Round.through now rest h = h
  after_round-Ends Round.stopped now rest h = refl
  after_round-Ends Round.not_defined now rest h = refl

  abbrev Ends : Polled × (List Read × Session M) → Type 0
  Ends p = is_waiting p.0 ≡ false

  poll_loop-error :
      (before after : List Read) (s : Session M)
      → Ends (poll_loop port accepts (before ++ read_error ∷ after) s)
  unfolding poll_loop round stop_listening
  poll_loop-error [] after s =
      let stopped = record s { server = stop_listening s.server } in
      elim (Bool-cases s.server.listening) [
        | inl e ↦
            subst Ends (sym (poll_loop-listening port accepts read_error after s e))
              (subst Ends (sym (poll_loop-idle port accepts after stopped refl)) refl)
        | inr e ↦ subst Ends (sym (poll_loop-idle port accepts (read_error ∷ after) s e)) refl
      ]
  poll_loop-error (r ∷ before) after s =
      let (ended, t) = round port accepts r s in
      let reads = before ++ read_error ∷ after in
      elim (Bool-cases s.server.listening) [
        | inl e ↦ subst Ends (sym (poll_loop-listening port accepts r reads s e)) (
            after_round-Ends ended (reads, t) (poll_loop port accepts reads t)
              (poll_loop-error before after t))
        | inr e ↦ subst Ends (sym (poll_loop-idle port accepts (r ∷ reads) s e)) refl
      ]

  -- A poll whose socket fails sooner or later does not wait: it comes to an end.
  pub poll-error :
      (before after : List Read) (s : Session M)
      → is_waiting (poll port accepts (before ++ read_error ∷ after) s).0 ≡ false
  unfolding poll
  poll-error before after s =
      poll_loop-error before after (record s { server = record s.server { listening = true } })
