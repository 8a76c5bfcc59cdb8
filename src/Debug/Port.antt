-- ===== src/Debug/Port.antt =====
-- ReadMemory and WriteMemory of RiscvDebugServer (include/riscv_debug_server.h): the physical memory
-- as the debug server accesses it.
use dimebox.Common.{ℕ, true, false}
use dimebox.Memory.{Memory, Result, value, thrown, block_error}
use dimebox.Memory.Physical.{read_physical_memory, write_physical_memory}
use dimebox.Debug.Memory.{MemoryPort, Access, finished, sim_exception, other_exception}

abbrev access_of : {A : Type 0} → Result A → Access A
access_of (value a) = finished a
access_of (thrown e) = sim_exception
access_of block_error = other_exception

abbrev pub done : {A : Type 0} → Access A → Access (Unit {0})
done (finished a) = finished tt
done sim_exception = sim_exception
done other_exception = other_exception

module _ (rand : ℕ → ℕ) where
  unfoldable pub port : MemoryPort Memory
  unfolding read_physical_memory write_physical_memory
  port = record {
    read_physical = λ address size m.
        let (result, after) = read_physical_memory rand address size (λ i. 0) false true m in
        (access_of result, after);
    write_physical = λ address size mbuf m.
        let (result, after) = write_physical_memory rand address size mbuf false false m in
        (done (access_of result), after);
  }
