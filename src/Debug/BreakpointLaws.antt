-- ===== src/Debug/BreakpointLaws.antt =====
-- Which instructions a breakpoint stops (src/debug_server.C).
use dimebox.Common.{
  ℕ, zero, suc, Bool, ap, sym, ◌≡◌, ◌<◌, ◌≤◌, refl, arith, ◌∙◌, ◌&&◌, ◌||◌, ◌+◌, ◌^◌, ltb, leb, u64,
  int_to_u64, List, [], ◌∷◌,
}
use dimebox.Debug.Session.{BreakpointRange, Server}
use dimebox.Debug.Breakpoints.{
  add_breakpoint, breakpoint_match, match_loop, breakpoint_hit, watchpoint_hit, set_range,
  instr_end,
}

abbrev within : ℕ → ℕ → ℕ → Bool
within lo hi a = leb lo a && leb a hi

breakpoint_match-add_breakpoint :
    (lo hi a : ℕ) (breakpoints : List BreakpointRange)
    → breakpoint_match (add_breakpoint lo hi breakpoints) a
      ≡ (breakpoint_match breakpoints a || within lo hi a)
unfolding breakpoint_match add_breakpoint
breakpoint_match-add_breakpoint lo hi a [] = ground arith
breakpoint_match-add_breakpoint lo hi a (r ∷ breakpoints) =
    ground (arith, breakpoint_match-add_breakpoint lo hi a breakpoints)

-- `count` addresses from `a` on have one in common with the range.
abbrev meets : ℕ → ℕ → ℕ → ℕ → Bool
meets lo hi a count = ltb 0 count && (ltb lo (a + count) && leb a hi)

match_loop-add_breakpoint :
    (count lo hi a : ℕ) (breakpoints : List BreakpointRange)
    → lo ≤ hi
    → a + count ≤ 2 ^ 64
    → match_loop count a (add_breakpoint lo hi breakpoints)
      ≡ (match_loop count a breakpoints || meets lo hi a count)
unfolding match_loop
match_loop-add_breakpoint zero lo hi a breakpoints ordered bound = refl
match_loop-add_breakpoint (suc n) lo hi a breakpoints ordered bound =
    let rest = match_loop-add_breakpoint n lo hi (u64 (a + 1)) breakpoints ordered (omega arith) in
    let one = breakpoint_match-add_breakpoint lo hi a breakpoints in ground (arith, rest, one)

instr_end-small :
    (maddr msize : ℕ) → msize ≤ 4 → maddr + 4 ≤ 2 ^ 64 → instr_end maddr msize ≡ maddr + 3
unfolding instr_end
instr_end-small maddr msize small bound = ground arith

-- With a breakpoint of 4 bytes at most at `maddr`, what hits a breakpoint is what hit one before, and
-- every instruction that has one of its four bytes among the four from `maddr` on; no watchpoint
-- changes.
pub breakpoint_hit-set_range :
    (maddr msize pc : ℕ) (s : Server)
    → msize ≤ 4
    → maddr + 4 ≤ 2 ^ 64
    → pc + 4 ≤ 2 ^ 64
    → (breakpoint_hit pc (set_range 0 maddr msize s)
        ≡ (breakpoint_hit pc s || (ltb maddr (pc + 4) && ltb pc (maddr + 4))))
      × ((a size : ℕ) → watchpoint_hit a size (set_range 0 maddr msize s) ≡ watchpoint_hit a size s)
unfolding breakpoint_hit watchpoint_hit set_range
breakpoint_hit-set_range maddr msize pc s small bound room =
    let last : instr_end maddr msize ≡ maddr + 3 = instr_end-small maddr msize small bound in
    let added =
      match_loop-add_breakpoint 4 maddr (maddr + 3) pc s.instr_breakpoints (omega arith) room in
    (
      ap (λ (hi : ℕ). match_loop 4 pc (add_breakpoint maddr hi s.instr_breakpoints)) last
          ∙ added
          ∙ ap (λ (b : Bool). match_loop 4 pc s.instr_breakpoints || b) (ground arith),
      λ a size. refl,
    )

-- With a watchpoint on `msize` bytes from `maddr` on, what hits a watchpoint is what hit one before,
-- and every access to some bytes that has one of them among the `msize + 1` from `maddr` on: one
-- more than the watchpoint is set for. No breakpoint changes.
watchpoint_hit-set_range :
    (maddr msize a size : ℕ) (s : Server)
    → msize < 2 ^ 31
    → maddr + msize < 2 ^ 64
    → size < 2 ^ 31
    → a + size ≤ 2 ^ 64
    → (watchpoint_hit a size (set_range 2 maddr msize s) ≡ (
        watchpoint_hit a size s
        || (ltb 0 size && (ltb maddr (a + size) && ltb a (maddr + msize + 1)))))
      × ((pc : ℕ) → breakpoint_hit pc (set_range 2 maddr msize s) ≡ breakpoint_hit pc s)
unfolding breakpoint_hit watchpoint_hit set_range
watchpoint_hit-set_range maddr msize a size s positive bound small room =
    let length : int_to_u64 size ≡ size = ground arith in
    let last : u64 (maddr + int_to_u64 msize) ≡ maddr + msize = ground arith in
    let added =
      match_loop-add_breakpoint size maddr (maddr + msize) a s.data_breakpoints (omega arith)
        room in
    (
      ap (λ (hi : ℕ). match_loop (int_to_u64 size) a (add_breakpoint maddr hi s.data_breakpoints))
            last
          ∙ ap (λ (n : ℕ). match_loop n a (add_breakpoint maddr (maddr + msize) s.data_breakpoints))
              length
          ∙ added
          ∙ ap (λ (b : Bool). match_loop size a s.data_breakpoints || b) (ground arith)
          ∙ ap
              (λ (n : ℕ).
                match_loop n a s.data_breakpoints
                || (ltb 0 size && (ltb maddr (a + size) && ltb a (maddr + msize + 1))))
              (sym length),
      λ pc. refl,
    )
