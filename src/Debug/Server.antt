-- ===== src/Debug/Server.antt =====
-- The commands of the debug server (include/debug_server.h, src/debug_server.C): the steps and the
-- end of the session, and which method runs for a command. Its responses to a breakpoint.
use dimebox.Common.{ℕ, Bool, true, false, ◌==◌, if◌then◌else◌, List, [], ◌∷◌, ◌++◌}
use dimebox.State.{RiscvState}
use dimebox.Rsp.Text.{Text, codes}
use dimebox.Rsp.Packet.{encode}
use dimebox.Rsp.Command.{Command, Reply, response, base_reply}
use dimebox.Debug.Session.{Server, Session}
use dimebox.Debug.Registers.{
  encode_register_value, read_gp_registers, read_register, write_register,
}
use dimebox.Debug.Breakpoints.{set_breakpoints, clear_breakpoints}
use dimebox.Debug.Memory.{MemoryPort, read_memory, write_memory}

unfoldable pub core_match : ℕ → Server → Bool
core_match core s = s.core == core

unfoldable pub set_single_step : Server → Server
set_single_step s = record s { do_step = true }

unfoldable pub clear_single_step : Server → Server
clear_single_step s = record s { do_step = false }

unfoldable pub stop_listening : Server → Server
stop_listening s = record s { listening = false }

-- Whether the response is deferred, which holds for one response.
unfoldable pub defer_response : Server → Bool × Server
defer_response s = (s.defer_response, record s { defer_response = false })

unfoldable fp : RiscvState → ℕ
fp cpu = cpu.x 8

unfoldable pub sp : RiscvState → ℕ
sp cpu = cpu.x 2

-- The text of AcknowledgeBreakpoint and AcknowledgeWatchpoint, before it is encoded.
unfoldable pub stop_reply : RiscvState → ℕ → Text
unfolding encode_register_value fp sp
stop_reply cpu pc =
    codes "T02"
    ++ (codes "1d:"
        ++ (encode_register_value (fp cpu)
            ++ (codes ";"
                ++ (codes "1f:"
                    ++ (encode_register_value (sp cpu)
                        ++ (codes ";"
                            ++ (codes "20:" ++ (encode_register_value pc ++ codes ";"))))))))

-- `accepts` is whether the socket takes a text, after those before it.
module _ (accepts : List Text → Text → Bool) where
  unfoldable pub send : Text → Server → Server
  unfolding stop_listening
  send text s = if accepts s.sent text then record s { sent = text ∷ s.sent } else stop_listening s

  -- The destructor.
  unfoldable fini : Server → Server
  unfolding send encode
  fini s = if s.do_shutdown then s else send (encode (codes "X00")) s

  module _ {M : Type 0} where
    unfoldable pub acknowledge_breakpoint : ℕ → Session M → Session M
    unfolding send encode stop_reply
    acknowledge_breakpoint pc s = record s { server = send (encode (stop_reply s.cpu pc)) s.server }

    unfoldable acknowledge_watchpoint : Session M → Session M
    unfolding send encode stop_reply
    acknowledge_watchpoint s = record s { server = send (encode (stop_reply s.cpu s.pc)) s.server }

unfoldable pub continue_server : Server → Server
continue_server s = record s { listening = false; defer_response = true }

unfoldable pub step_server : Server → Server
unfolding set_single_step
step_server s = set_single_step (record s { defer_response = true })

unfoldable pub kill_target : Server → Server
kill_target s = record s { do_shutdown = true }

module _ {M : Type 0} (port : MemoryPort M) where
  abbrev with_server : (Server → Server) → Session M → Session M
  with_server f s = record s { server = f s.server }

  -- The method that runs for a command: the debug server's own, or the one that it inherits.
  unfoldable pub handle : Command → Text → Session M → Reply × Session M
  unfolding continue_server step_server kill_target read_gp_registers read_register write_register
      read_memory write_memory set_breakpoints clear_breakpoints base_reply
  handle Command.continue pdata s = (response [], with_server continue_server s)
  handle Command.step pdata s = (response [], with_server step_server s)
  handle Command.kill_target pdata s = (response (codes "X00"), with_server kill_target s)
  handle Command.read_gp_registers pdata s = (read_gp_registers s, s)
  handle Command.read_register pdata s = (read_register pdata s, s)
  handle Command.write_register pdata s = write_register pdata s
  handle Command.read_memory pdata s = read_memory port pdata s
  handle Command.write_memory pdata s = write_memory port pdata s
  handle Command.set_breakpoint pdata s = set_breakpoints pdata s
  handle Command.clear_breakpoint pdata s = clear_breakpoints s
  handle other pdata s = (response (base_reply other), s)
