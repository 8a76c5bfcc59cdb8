-- ===== src/Physical.antt =====
-- The physical memory: include/physical_memory.h and src/physical_memory.C.
pub mod Block
pub mod Store
pub mod Marks
pub mod Bytes
pub mod Access
pub mod Fetch
pub mod Held
pub mod Memory
pub mod Readback
pub mod RoundTrip
pub mod Tests
