-- ===== src/Memory/ExclusiveLaws.antt =====
-- Who may store: the monitors over the cores (src/memory.C).
use dimebox.Common.{ℕ, Bool, true, ◌≡◌, arith, ◌&&◌, ◌==◌}
use dimebox.Monitor as Monitor
use dimebox.State.{State}
use dimebox.Memory.{Memory}
use dimebox.Memory.Translation.{la2pa, shareable, enabled}
use dimebox.Memory.Exclusive.{
  set_exclusive_monitor, is_exclusive, access_global_monitor, clear_exclusive_monitor,
}

-- After a core has marked an access, an access of any core is exclusive just when it is the one that
-- was marked, by the same core: only the last mark of all cores counts. That a core clears its own
-- monitor does not take the mark away.
pub is_exclusive-set_exclusive_monitor :
    (la n other_la other_n : ℕ) (privileged other_privileged : Bool) (cpu other : State)
    (m : Memory)
    → (let (marked, after) = set_exclusive_monitor la n privileged cpu m in
        (is_exclusive other_la other_n other_privileged other after
          ≡ ((other_la == la) && ((other_n == n) && (other.id == cpu.id))))
        × (is_exclusive la n privileged (clear_exclusive_monitor marked) after ≡ true))
unfolding set_exclusive_monitor is_exclusive access_global_monitor clear_exclusive_monitor la2pa
    shareable enabled Monitor.set Monitor.is_exclusive Monitor.clear
is_exclusive-set_exclusive_monitor la n other_la other_n privileged other_privileged cpu other m =
    (ground arith, ground arith)
