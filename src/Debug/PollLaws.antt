-- ===== src/Debug/PollLaws.antt =====
-- What a poll leaves behind, and what it sends (src/debug_server.C).
use dimebox.Common.{
  ℕ, Bool, true, false, not, ap, ◌≡◌, refl, arith, ◌==◌, if◌then◌else◌, Option, none, some, List,
  [], ◌∷◌, ◌⊎◌, inl, inr, Bool-cases,
}
use dimebox.Rsp.Text.{Text, length}
use dimebox.Rsp.Packet.{encode}
use dimebox.Rsp.Command.{
  Command, Reply, response, uncaught, undefined, Choice, choose, run_command, dispatch,
  encode_reply,
}
use dimebox.Debug.Session.{Session}
use dimebox.Debug.Registers.{write_register, set_decoded, set_register, RegType}
use dimebox.Debug.Breakpoints.{set_breakpoints, clear_breakpoints, reset_breakpoints, set_range}
use dimebox.Debug.Memory.{
  MemoryPort, read_memory, read_bytes, write_memory, write_bytes, write_scanned,
}
use dimebox.Debug.Server.{handle, step_server, set_single_step, continue_server, kill_target}
use dimebox.Debug.Poll.{Read, returns, waits, poll_loop, round, after_round}

-- A response of Dispatch: nothing, or a packet.
unfoldable pub IsReply : Reply → Type 0
IsReply (response text) = (text ≡ []) ⊎ ((t : Text) × (text ≡ encode t))
IsReply uncaught = Unit
IsReply undefined = Unit

module _ {M : Type 0} where
  abbrev pub sent_of : Session M → List Text
  sent_of s = s.server.sent

  set_register-sent :
      (type : RegType) (i v : ℕ) (s : Session M) → sent_of (set_register type i v s).1 ≡ sent_of s
  unfolding set_register
  set_register-sent type i v s = ground arith

  set_decoded-sent :
      (type : RegType) (i : ℕ) (value : Option (Bool × ℕ)) (s : Session M)
      → sent_of (set_decoded type i value s).1 ≡ sent_of s
  unfolding set_decoded
  set_decoded-sent type i none s = ground arith
  set_decoded-sent type i (some (true, v)) s = set_register-sent type i v s
  set_decoded-sent type i (some (false, v)) s = refl

  write_register-sent :
      (pdata : Text) (s : Session M) → sent_of (write_register pdata s).1 ≡ sent_of s
  unfolding write_register
  write_register-sent pdata s = grind (arith, set_decoded-sent)

  set_breakpoints-sent :
      (pdata : Text) (s : Session M) → sent_of (set_breakpoints pdata s).1 ≡ sent_of s
  unfolding set_breakpoints set_range
  set_breakpoints-sent pdata s = ground arith

  module _ (port : MemoryPort M) where
    read_memory-sent :
        (pdata : Text) (s : Session M) → sent_of (read_memory port pdata s).1 ≡ sent_of s
    unfolding read_memory read_bytes
    read_memory-sent pdata s = ground arith

    write_memory-sent :
        (pdata : Text) (s : Session M) → sent_of (write_memory port pdata s).1 ≡ sent_of s
    unfolding write_memory write_bytes write_scanned
    write_memory-sent pdata s = ground arith

    handle-sent :
        (c : Command) (pdata : Text) (s : Session M) → sent_of (handle port c pdata s).1 ≡ sent_of s
    unfolding handle continue_server step_server kill_target set_single_step clear_breakpoints
        reset_breakpoints
    handle-sent c pdata s = ground (
      arith,
      write_register-sent pdata s,
      set_breakpoints-sent pdata s,
      read_memory-sent pdata s,
      write_memory-sent pdata s,
    )

    run_command-sent :
        (choice : Choice) (pdata : Text) (s : Session M)
        → sent_of (run_command (handle port) choice pdata s).1 ≡ sent_of s
    unfolding run_command
    run_command-sent choice pdata s = grind (arith, handle-sent)

    pub dispatch-sent :
        (pdata : Text) (s : Session M) → sent_of (dispatch (handle port) pdata s).1 ≡ sent_of s
    unfolding dispatch
    dispatch-sent pdata s = ground (arith, run_command-sent (choose pdata) pdata s)

    encode_reply-IsReply : (reply : Reply) → IsReply (encode_reply reply)
    unfolding encode_reply IsReply
    encode_reply-IsReply (response text) = inr (text, refl)
    encode_reply-IsReply uncaught = tt
    encode_reply-IsReply undefined = tt

    pub dispatch-IsReply :
        (pdata : Text) (s : Session M) → IsReply (dispatch (handle port) pdata s).0
    unfolding dispatch IsReply
    dispatch-IsReply pdata s =
        let (reply, after) = run_command (handle port) (choose pdata) pdata s in
        elim (Bool-cases (length pdata == 0)) [
          | inl e ↦ rw e (inl refl)
          | inr e ↦ rw e (encode_reply-IsReply reply)
        ]

    module _ (accepts : List Text → Text → Bool) where
      -- A round of a poll that listens.
      pub poll_loop-listening :
          (r : Read) (reads : List Read) (s : Session M)
          → s.server.listening ≡ true
          → (let (ended, t) = round port accepts r s in
              poll_loop port accepts (r ∷ reads) s
              ≡ after_round port accepts ended (reads, t) (poll_loop port accepts reads t))
      unfolding poll_loop
      poll_loop-listening r reads s e =
          let (ended, t) = round port accepts r s in
          ap
            (λ (b : Bool).
              if b
              then after_round port accepts ended (reads, t) (poll_loop port accepts reads t)
              else (returns (not s.server.do_shutdown), (r ∷ reads, s)))
            e

      -- A poll that does not listen.
      pub poll_loop-idle :
          (reads : List Read) (s : Session M)
          → s.server.listening ≡ false
          → poll_loop port accepts reads s ≡ (returns (not s.server.do_shutdown), (reads, s))
      unfolding poll_loop
      poll_loop-idle [] s e =
          ap (λ (b : Bool). (if b then waits else returns (not s.server.do_shutdown), ([], s))) e
      poll_loop-idle (r ∷ reads) s e =
          let (ended, t) = round port accepts r s in
          ap
            (λ (b : Bool).
              if b
              then after_round port accepts ended (reads, t) (poll_loop port accepts reads t)
              else (returns (not s.server.do_shutdown), (r ∷ reads, s)))
            e

      pub poll_loop-waits :
          (s : Session M)
          → s.server.listening ≡ true
          → poll_loop port accepts [] s ≡ (waits, ([], s))
      unfolding poll_loop
      poll_loop-waits s e =
          ap (λ (b : Bool). (if b then waits else returns (not s.server.do_shutdown), ([], s))) e
