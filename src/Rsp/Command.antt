-- ===== src/Rsp/Command.antt =====
-- The commands of the protocol: GDB_SERVER_ACTIONS (include/rsp.h), the choice that Dispatch makes,
-- and the replies of the commands that no subclass overrides (src/rsp.C).
use dimebox.Common.{ℕ, Bool, false, ◌==◌, if◌then◌else◌, none, some, [], ◌∷◌}
use dimebox.Rsp.Text.{Text, codes, length, take, char_at, is_digit, equal, contains}
use dimebox.Rsp.Packet.{encode}

pub data Command : Type 0 where
  ack_bad_response clear_breakpoint continue continue_thread continue_with_signal detach : Command
  end_active_threads_report end_trace_variables_report file_operation interrupt : Command
  kill_target load_binary_data read_gp_registers read_memory read_register reply_empty : Command
  report_current_thread report_features report_offsets report_process : Command
  report_trace_running request_symbol_info send_halt_report set_breakpoint set_thread : Command
  start_active_threads_report start_trace_variables_report step step_thread : Command
  step_with_signal use_previous_thread write_gp_registers write_memory write_register : Command
  request_supported_actions : Command

-- How a command ends: with a response, with an exception that is no std::runtime_error and that
-- nothing catches, or in what C++ leaves undefined.
pub data Reply : Type 0 where
  response : Text → Reply
  uncaught undefined : Reply

-- What the tests come to: a command, no command, or a read behind the end of the data.
pub data Choice : Type 0 where
  command : Command → Choice
  unknown out_of_range : Choice

abbrev first_is : Text → ℕ → Bool
first_is [] c = false
first_is (d ∷ s) c = d == c

-- The tests on the first character, from `D` on.
unfoldable choose_by_first : Text → Choice
choose_by_first s =
    if first_is s b'D'
    then command Command.detach
    else if first_is s b'G'
    then command Command.write_gp_registers
    else if first_is s b'k'
    then command Command.kill_target
    else if first_is s b'M'
    then command Command.write_memory
    else if first_is s b'p'
    then command Command.read_register
    else if first_is s b'P'
    then command Command.write_register
    else if first_is s b'X'
    then command Command.load_binary_data
    else if first_is s b'z'
    then command Command.clear_breakpoint
    else if first_is s b'c'
    then command Command.continue
    else if first_is s b's'
    then command Command.step
    else if first_is s b'C'
    then command Command.continue_with_signal
    else if first_is s b'S'
    then command Command.step_with_signal
    else unknown

-- The tests from `qTStatus` on.
unfoldable choose_query : Text → Choice
unfolding contains equal choose_by_first
choose_query s =
    if contains s (codes "qTStatus")
    then command Command.report_trace_running
    else if contains s (codes "qTf")
    then command Command.start_trace_variables_report
    else if contains s (codes "qTs")
    then command Command.end_trace_variables_report
    else if contains s (codes "qfThreadInfo")
    then command Command.start_active_threads_report
    else if contains s (codes "qsThreadInfo")
    then command Command.end_active_threads_report
    else if equal (take 2 s) (codes "qC")
    then command Command.use_previous_thread
    else if contains s (codes "qAttached")
    then command Command.report_process
    else if contains s (codes "qOffsets")
    then command Command.report_offsets
    else if equal s (codes "?")
    then command Command.ack_bad_response
    else if equal s (codes "g")
    then command Command.read_gp_registers
    else if first_is s b'm'
    then command Command.read_memory
    else if contains s (codes "vFile")
    then command Command.file_operation
    else if contains s (codes "qSymbol::")
    then command Command.request_symbol_info
    else if first_is s b'Z'
    then command Command.set_breakpoint
    else if contains s (codes "vCont?")
    then command Command.request_supported_actions
    else if contains s (codes "vCont")
    then command Command.continue_thread
    else if contains s (codes "vStep")
    then command Command.step_thread
    else if contains s (codes "vKill")
    then command Command.kill_target
    else choose_by_first s

-- `pdata[i]` is a digit: behind the NUL that ends the text there is nothing to read.
abbrev digit_at : Text → ℕ → Choice → Choice
digit_at s i next = elim (char_at s i) [
  | none ↦ out_of_range
  | some c ↦ (if is_digit c then command Command.set_thread else next)
]

-- The tests of Dispatch, in their order.
unfoldable pub choose : Text → Choice
unfolding contains equal choose_query
choose s =
    let active =
      if equal (take 3 s) (codes "Hc-") then digit_at s 4 (choose_query s) else choose_query s in
    if contains s (codes "qSupported")
    then command Command.report_features
    else if contains s (codes "vMustReplyEmpty")
    then command Command.reply_empty
    else if equal (take 2 s) (codes "Hg")
    then digit_at s 2 active
    else active

-- The commands whose base method is what runs, in the order of the source.
unfoldable thread_reply : Command → Text
thread_reply Command.start_active_threads_report = codes "m0"
thread_reply Command.end_active_threads_report = codes "l"
thread_reply _ = []

unfoldable report_reply : Command → Text
unfolding thread_reply
report_reply Command.report_features = []
report_reply Command.report_offsets = codes "Text=0;Data=0;Bss=0"
report_reply Command.report_process = codes "l"
report_reply Command.report_trace_running = codes "T0"
report_reply Command.request_symbol_info = codes "OK"
report_reply Command.send_halt_report = []
report_reply Command.report_current_thread = codes "OK"
report_reply Command.set_thread = []
report_reply Command.use_previous_thread = []
report_reply Command.request_supported_actions = []
report_reply other = thread_reply other

unfoldable pub base_reply : Command → Text
unfolding report_reply
base_reply Command.ack_bad_response = codes "S05"
base_reply Command.reply_empty = []
base_reply other = report_reply other

unfoldable pub encode_reply : Reply → Reply
unfolding encode
encode_reply (response text) = response (encode text)
encode_reply uncaught = uncaught
encode_reply undefined = undefined

-- `handle` is the virtual method of a command. One that the switch has no case for keeps the `+`.
module _ {S : Type 0} (handle : Command → Text → S → Reply × S) where
  unfoldable pub run_command : Choice → Text → S → Reply × S
  run_command (command Command.step_thread) pdata s = (response (codes "+"), s)
  run_command (command c) pdata s = handle c pdata s
  run_command unknown pdata s = (response (codes "+"), s)
  run_command out_of_range pdata s = (undefined, s)

  unfoldable pub dispatch : Text → S → Reply × S
  unfolding choose run_command encode_reply
  dispatch pdata s =
      if length pdata == 0
      then (response [], s)
      else (let (reply, after) = run_command (choose pdata) pdata s in (encode_reply reply, after))
