-- ===== src/Instruction.antt =====
-- The instructions: include/riscv_instruction.h, src/riscv_instruction.C, src/rv32i_instrs.C.
pub mod Mnemonic
pub mod Fields
pub mod Factory
pub mod Access
pub mod Machine
pub mod Arith
pub mod Step
pub mod Execute
pub mod SignExtend
pub mod Multiply
pub mod Divide
pub mod Encoding
pub mod Decoding
pub mod Branches
pub mod Jump
pub mod Tests
