-- ===== src/Debug/Breakpoints.antt =====
-- The breakpoints and the watchpoints (src/debug_server.C): ranges of addresses, both ends included.
use dimebox.Common.{
  ℕ, zero, suc, Bool, true, false, ◌&&◌, ◌+◌, ◌==◌, leb, if◌then◌else◌, u64, int_to_u64, slt32,
  List, [], ◌∷◌, ◌++◌,
}
use dimebox.Rsp.Text.{Text, codes, drop}
use dimebox.Rsp.Scan
use dimebox.Rsp.Scan.{Scanner, scan_d, scan_unsigned, literal, ◌>>=◌, ◌>>◌, pure}
use dimebox.Rsp.Command.{Reply, response, undefined}
use dimebox.Debug.Session.{BreakpointRange, Server, Session}

unfoldable pub add_breakpoint : ℕ → ℕ → List BreakpointRange → List BreakpointRange
add_breakpoint lo hi breakpoints = breakpoints ++ (record { address_lo = lo; address_hi = hi } ∷ [])

unfoldable pub breakpoint_match : List BreakpointRange → ℕ → Bool
breakpoint_match [] input_address = false
breakpoint_match (r ∷ breakpoints) input_address =
    if leb r.address_lo input_address && leb input_address r.address_hi
    then true
    else breakpoint_match breakpoints input_address

-- `count` addresses from `address` on, until one matches.
unfoldable pub match_loop : ℕ → ℕ → List BreakpointRange → Bool
unfolding breakpoint_match
match_loop zero address breakpoints = false
match_loop (suc count) address breakpoints =
    if breakpoint_match breakpoints address
    then true
    else match_loop count (u64 (address + 1)) breakpoints

unfoldable pub breakpoint_hit : ℕ → Server → Bool
unfolding match_loop
breakpoint_hit pc s = match_loop 4 pc s.instr_breakpoints

-- The loop ends where the address is that of the access and its size, which is an `int`.
unfoldable pub watchpoint_hit : ℕ → ℕ → Server → Bool
unfolding match_loop
watchpoint_hit mem_address access_size s =
    match_loop (int_to_u64 access_size) mem_address s.data_breakpoints

unfoldable pub reset_breakpoints : Server → Server
reset_breakpoints s = record s { instr_breakpoints = []; data_breakpoints = [] }

-- An instruction covers four bytes at least.
unfoldable pub instr_end : ℕ → ℕ → ℕ
instr_end maddr msize = u64 (maddr + (if slt32 4 msize then int_to_u64 msize else 3))

unfoldable pub set_range : ℕ → ℕ → ℕ → Server → Server
unfolding add_breakpoint instr_end
set_range btype maddr msize s =
    if btype == 0
    then record s {
      instr_breakpoints = add_breakpoint maddr (instr_end maddr msize) s.instr_breakpoints;
    }
    else if btype == 2
    then record s {
      data_breakpoints = add_breakpoint maddr (u64 (maddr + int_to_u64 msize)) s.data_breakpoints;
    }
    else s

-- "%d,%llx,%d".
unfoldable scan_breakpoint : Scanner (ℕ × (ℕ × ℕ))
unfolding scan_d scan_unsigned literal
scan_breakpoint = scan_d >>= λ btype. (literal b',' >> scan_unsigned 64) >>= λ maddr.
    (literal b',' >> scan_d) >>= λ msize. pure (btype, (maddr, msize))

module _ {M : Type 0} where
  unfoldable pub set_breakpoints : Text → Session M → Reply × Session M
  unfolding scan_breakpoint set_range
  set_breakpoints pdata s = elim (scan_breakpoint (drop 1 pdata)) [
    | Scan.matched (btype, (maddr, msize)) _ ↦
        (response (codes "OK"), record s { server = set_range btype maddr msize s.server })
    | Scan.unmatched ↦ (response (codes "E1"), s)
    | Scan.undefined ↦ (undefined, s)
  ]

  unfoldable pub clear_breakpoints : Session M → Reply × Session M
  unfolding reset_breakpoints
  clear_breakpoints s = (response (codes "OK"), record s { server = reset_breakpoints s.server })
