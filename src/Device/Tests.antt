-- ===== src/Device/Tests.antt =====
-- The theorems on the timer, at a concrete timer.
use dimebox.Common.{true, ◌≡◌, arith}
use dimebox.Device.Timer.{MachineTimer, interrupt_pending}
use dimebox.Device.TimerLaws.{ticks, interrupt_pending-ticks}

abbrev clock : MachineTimer
clock = record {
  base_address = 0x2000000;
  extent = 0xffff;
  is_implemented = true;
  timer = 5;
  timer_advance = 1;
  timer_compare = 8;
}

interrupt_pending-ticks_example : interrupt_pending (ticks 3 clock) ≡ true
interrupt_pending-ticks_example = interrupt_pending-ticks 3 clock (omega arith)
