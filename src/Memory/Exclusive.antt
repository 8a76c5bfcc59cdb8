-- ===== src/Memory/Exclusive.antt =====
-- The methods on the exclusive monitors (src/memory.C): the one of a core, and the one that all
-- cores share.
use dimebox.Common.{ℕ, Bool, true, false, not, ◌&&◌, if◌then◌else◌}
use dimebox.Monitor.{ExclMonitor}
use dimebox.Monitor as Monitor
use dimebox.State.{State}
use dimebox.Memory.{Memory, Result, value, thrown, block_error, validate_physical_memory_address}
use dimebox.Memory.Translation.{Translation, la2pa, shareable, cacheable, enabled, mmu_cacheable}

abbrev with_monitor : ExclMonitor → State → State
with_monitor local_monitor cpu = record cpu { local_monitor = local_monitor }

unfoldable pub clear_exclusive_monitor : State → State
unfolding Monitor.clear
clear_exclusive_monitor cpu = with_monitor (Monitor.clear cpu.local_monitor) cpu

unfoldable pub access_global_monitor : State → Translation → Bool
unfolding shareable cacheable enabled mmu_cacheable
access_global_monitor cpu trans =
    if enabled cpu
    then enabled cpu && (mmu_cacheable true cpu && (shareable trans && cacheable trans))
    else shareable trans

abbrev translate : ℕ → ℕ → Bool → Bool → State → Translation
translate logical_address num_bytes is_aligned privileged cpu =
    la2pa logical_address (not cpu.is_secure) privileged true is_aligned num_bytes false cpu

unfoldable pub set_exclusive_monitor : ℕ → ℕ → Bool → State → Memory → State × Memory
unfolding la2pa access_global_monitor Monitor.set
set_exclusive_monitor logical_address num_bytes privileged cpu m =
    let trans = translate logical_address num_bytes true privileged cpu in
    let local = Monitor.set logical_address trans.pa num_bytes cpu.id cpu.local_monitor in
    let global = Monitor.set logical_address trans.pa num_bytes cpu.id m.global_monitor in
    (
      with_monitor local cpu,
      if access_global_monitor cpu trans then record m { global_monitor = global } else m,
    )

unfoldable pub is_exclusive : ℕ → ℕ → Bool → State → Memory → Bool
unfolding la2pa access_global_monitor Monitor.is_exclusive
is_exclusive logical_address num_bytes privileged cpu m =
    let trans = translate logical_address num_bytes true privileged cpu in
    if access_global_monitor cpu trans
    then Monitor.is_exclusive logical_address trans.pa num_bytes cpu.id m.global_monitor
    else Monitor.is_exclusive logical_address trans.pa num_bytes cpu.id cpu.local_monitor

-- Whether the access is exclusive, and the core then.
unfoldable check_monitors : ℕ → ℕ → Translation → State → Memory → Bool × State
unfolding access_global_monitor Monitor.is_exclusive clear_exclusive_monitor
check_monitors logical_address num_bytes trans cpu m =
    let global = Monitor.is_exclusive logical_address trans.pa num_bytes cpu.id m.global_monitor in
    if access_global_monitor cpu trans
    then (global, if global then clear_exclusive_monitor cpu else cpu)
    else (Monitor.is_exclusive logical_address trans.pa num_bytes cpu.id cpu.local_monitor, cpu)

unfoldable exclusive_monitors_pass :
    ℕ → ℕ → Bool → Bool → Bool → State → Memory → Result (Bool × State)
unfolding la2pa validate_physical_memory_address check_monitors
exclusive_monitors_pass logical_address num_bytes is_aligned privileged for_test cpu m =
    let trans = translate logical_address num_bytes is_aligned privileged cpu in
    elim (validate_physical_memory_address trans.pa for_test m) [
      | value _ ↦ value (check_monitors logical_address num_bytes trans cpu m)
      | thrown e ↦ thrown e
      | block_error ↦ block_error
    ]
