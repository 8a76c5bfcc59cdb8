-- ===== src/Debug/Session.antt =====
-- The members of DebugServer and RiscvDebugServer (include/debug_server.h,
-- include/riscv_debug_server.h), with the core and the memory that a command works on. Whether the
-- server prints what it does is left out.
use dimebox.Common.{ℕ, Bool, false, true, List, []}
use dimebox.State.{RiscvState}
use dimebox.Rsp.Text.{Text}

pub record BreakpointRange : Type 0 where
  pub address_lo : ℕ
  pub address_hi : ℕ

pub record Server : Type 0 where
  pub core : ℕ
  pub at_start : Bool
  pub listening : Bool
  pub defer_response : Bool
  pub do_shutdown : Bool
  pub do_step : Bool
  pub instr_breakpoints : List BreakpointRange
  pub data_breakpoints : List BreakpointRange
  -- What was written to the socket, the last first.
  pub sent : List Text

pub record Session (M : Type 0) : Type 0 where
  pub server : Server
  pub cpu : RiscvState
  pub memory : M
  pub pc : ℕ

-- The constructor and Init, once a client has connected.
unfoldable pub new : ℕ → Server
new core = record {
  core = core;
  at_start = true;
  listening = false;
  defer_response = false;
  do_shutdown = false;
  do_step = false;
  instr_breakpoints = [];
  data_breakpoints = [];
  sent = [];
}
