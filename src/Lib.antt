-- ===== src/Lib.antt =====
-- dimebox, a simulator of a RISC-V core (RV32IMC with machine and user mode).
--
-- The program's parts and how they interact. A simulator fetches the word at the PC from memory,
-- gives it to the instruction factory, which chooses a class of instruction; Execute of that class
-- decodes the operands and runs Step on a copy of the core's state; Writeback takes the copy over
-- with Update and writes the bytes that the instruction stores. An exception of an instruction, or
-- an interrupt that a device has signalled, is then serviced by ProcessException, which changes
-- the privilege level, MEPC, MCAUSE and the PC. Memory stands on blocks of physical memory and on
-- devices: a timer, and UARTs with queues of characters. A debug server stops the simulator before
-- and after a step, and reads and changes the core and the memory as a debugger asks it to, in the
-- packets of the remote serial protocol.
--
-- Files, by the part that they model (paths from the repository's root):
--
-- Exceptions: include/exceptions.h, the enumeration SIM_EXCEPTIONS.
-- Monitor: include/exclusive_monitor.h.
-- State: include/core_state.h and include/riscv_core_state.h. State and RiscvState are records
--   with the fields of the classes, a setter is a function of the value and the state. State/Csr
--   is ValidateCSRAccess, CSR and SetCSR; State/Trap is PushPrivilegeLevel, PopPrivilegeLevel,
--   InterruptPending, Signal, Ready and ProcessException, one helper for each group of cases;
--   State/Copy is Update (all src/riscv_core_state.C). State/Fields names the fields of MSTATUS.
-- Instruction: include/riscv_instruction.h, src/riscv_instruction.C, src/rv32i_instrs.C and
--   include/memory_access.h. Mnemonic is the list of classes that utils/make_rv32i_iclasses.pl
--   generates, with their formats; Fields is Decode of each format, Factory is NewInstruction and
--   NewInstruction16; Machine is what a running instruction has and its operations (RS1, RD,
--   SetPC, MEMORY_READ, MEMORY_WRITE, SignExtend); Step has the Step of each class in child
--   modules and Arith its multiplications and divisions; Execute is Execute and Writeback.
--   Encoding has words of each format as the ISA defines them, which the decoders are compared
--   with.
-- Physical: include/physical_memory.h and src/physical_memory.C. Block is MemBlock, Store is
--   PhysicalMemory with its map from block addresses to blocks; Held is the memory of bytes that a
--   store stands for.
-- Device: include/timer.h, src/timer.C and include/memmap_device.h (Timer), uart_queue of
--   include/uart.h (Queue), and UART_pl011 with the class uart below it (Uart: include/uart_pl011.h,
--   src/uart_pl011.C, src/uart.C): Ports is Read, Write and UpdateStatus, Lines is Transmit, Receive
--   and InterruptPending. Interrupts has the reachable states, by steps.
-- Memory: include/memory.h, src/memory.C and include/mmu.h. The root is the state with
--   ValidatePhysicalMemoryAddress; Devices is WriteDeviceMemory, ReadDeviceMemory and
--   ApplyEndianness; Physical is WritePhysicalMemory and ReadPhysicalMemory over the stores of
--   Physical; Region is RegionAccess; Translation is the MMU; Logical is ReadMemory and WriteMemory;
--   Exclusive is the methods on the exclusive monitors; Files is SetFileBlockAddresses.
-- Rsp: include/rsp.h and src/rsp.C. Text and Scan are what the protocol uses of std::string, printf
--   and sscanf; Packet is Decode, Acknowledge and Encode; Command is Dispatch, where the virtual
--   methods are a parameter, and the replies of the base class.
-- Debug: include/debug_server.h, include/riscv_debug_server.h and src/debug_server.C. Session is the
--   members of both classes; Values is le4, le8 and their decoders; Registers, Breakpoints and Memory
--   are the commands; Port is the memory of the simulator as the commands see it; Server is the
--   commands that steer the session and the choice of the method for a command; Poll is Poll,
--   PreStepChecks and PostStepChecks.
-- Simulator: src/riscv_simulator.C and include/riscv_simulator.h, StepCore without a debug server
--   and ServiceDevices, with the copy of the core that a step works on and the tail of StepCore in
--   helpers. Go is GetReadyCpus, StepCores and the loop of Go, whose cores are a list and whose ready
--   cores are places in it.
-- Common has numbers, words and their bit operations, Outcome a result that can be thrown, Action
--   the actions of an instruction: a state and an outcome, with do blocks.
--
-- How C is written: an object is a record and a method gives the object that it leaves; a number
-- of w bits is a natural number, and arithmetic on it wraps by `% 2 ^ w`; a signed number is the
-- word that represents it. An exception of C++ is the outcome `thrown`; what the language leaves
-- undefined, a division by zero, a quotient or a count that is no int, or a shift by too much, is
-- the outcome `undefined`; a member that is used before it is set is the `none` of an Option. A
-- buffer is a function of the index or a list. A loop over a count is structural recursion on that
-- count, so nothing runs on fuel: the loops of AllocateInitBlock and ByteCount run 32 times, those
-- of Write and Read as often as there are bytes, and that of SignExtend runs once for each bit
-- from the sign to bit 63. The loop of Poll is recursion on the list of reads, and says that it
-- waits where the list ends.
--
-- Parameters: rand(), a function of the number of draws so far; the memory that an instruction
-- reads and writes, a record of two operations that may fail, and the fetch of instruction bytes;
-- the service of the UART in a step; random_shuffle and the limit on the instructions; what the
-- copy of a core holds before it is initialised; the memory that the commands of a debugger work
-- on, which Debug/Port fills; and whether the socket of the debug server takes a text. What the
-- socket gives is a list of reads, what the terminal of a UART gives is an argument of Receive.
--
-- Not modelled: printing and traces, disassembly, the names of registers of the core and the
-- timer, sockets and the settings of the terminal, the parsing of options, and ELF files, which
-- are input and output; the debug server in StepCore; Init, which sets the simulator up from the
-- options; TestBlockAddresses, which sorts the keys of the map of physical memory; and the methods
-- of RSP that DebugServer overrides. A page is never crossed and the devices have the endianness
-- of the host, so that the branches for the other cases are left out. The message of an exception
-- is left out, also where Decode makes it of a buffer that was not written. The check of a socket
-- for room and the stack space of an array are taken for granted. Hosts are taken to be little-
-- endian with an int of 32 bits.

pub mod Common
pub mod Exceptions
pub mod Outcome
pub mod Action
pub mod Monitor
pub mod State
pub mod Instruction
pub mod Physical
pub mod Device
pub mod Simulator
pub mod Memory
pub mod Rsp
pub mod Debug
