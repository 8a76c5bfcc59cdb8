-- ===== src/Monitor.antt =====
-- include/exclusive_monitor.h: the state of an exclusive monitor.
use dimebox.Common.{ℕ, Bool, true, false, not, ◌&&◌, ◌-◌, ◌^◌, ◌==◌}

-- `cpu_id` is an `int`, so the -1 of an unused monitor is 2 ^ 32 - 1.
pub record ExclMonitor : Type 0 where
  pub la : ℕ
  pub pa : ℕ
  pub cpu_id : ℕ
  pub elem_size : ℕ
  pub exclusive : Bool

unfoldable pub open_monitor : ExclMonitor
open_monitor = record { la = 0; pa = 0; cpu_id = 2 ^ 32 - 1; elem_size = 0; exclusive = false }

unfoldable pub set : ℕ → ℕ → ℕ → ℕ → ExclMonitor → ExclMonitor
set la pa elem_size cpu_id m = record {
  la = la;
  pa = pa;
  elem_size = elem_size;
  exclusive = true;
  cpu_id = cpu_id;
}

unfoldable pub clear : ExclMonitor → ExclMonitor
clear m = record m { exclusive = false }

unfoldable pub is_open : ExclMonitor → Bool
is_open m = not m.exclusive

-- The overload of IsExclusive that takes an access.
unfoldable pub is_exclusive : ℕ → ℕ → ℕ → ℕ → ExclMonitor → Bool
is_exclusive la pa elem_size cpu_id m =
    m.exclusive && (la == m.la && (pa == m.pa && (elem_size == m.elem_size && cpu_id == m.cpu_id)))
