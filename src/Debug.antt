-- ===== src/Debug.antt =====
-- The debug server of the simulator: include/debug_server.h, include/riscv_debug_server.h and
-- src/debug_server.C.
pub mod Session
pub mod Values
pub mod ValueLaws
pub mod Registers
pub mod Breakpoints
pub mod Memory
pub mod Server
pub mod Poll
pub mod RegisterLaws
pub mod BreakpointLaws
pub mod PollLaws
pub mod Transcript
pub mod Endings
pub mod Resume
pub mod Stepping
pub mod Port
pub mod MemoryLaws
pub mod Addresses
pub mod Requests
pub mod Commands
pub mod Long
pub mod Tests
