-- ===== src/Instruction/Execute.antt =====
-- Execute and Writeback of RiscvInstruction (include/riscv_instruction.h,
-- src/riscv_instruction.C), and the constructor.
use dimebox.Common.{ℕ, ◌+◌, none, some, List, [], ◌∷◌, u32, if◌then◌else◌}
use dimebox.Exceptions.{SimException}
use dimebox.Outcome.{Outcome, done, thrown, runtime_error, undefined}
use dimebox.Action.{Action, ◌>>◌, modify}
use dimebox.State.{RiscvState, set_pc}
use dimebox.State.Trap.{process_exception}
use dimebox.State.Copy.{update}
use dimebox.Instruction.Mnemonic.{Mnemonic, format}
use dimebox.Instruction.Fields.{no_fields, decode}
use dimebox.Instruction.Access.{MemoryAccess, is_write, is_data, aligned}
use dimebox.Instruction.Machine.{MemoryPort, Machine}
use dimebox.Instruction.Step.{step}

module _ {M : Type 0} where
  -- The constructor, for an encoding of `instr_size` bytes.
  unfoldable pub new : ℕ → RiscvState → M → Machine M
  new instr_size s memory = record {
    state = s;
    memory = memory;
    next_pc = u32 (u32 s.pc + instr_size);
    mbuf = [];
    m_ops = [];
  }

  unfoldable pub advance_pc : Action (Machine M) (Unit {0})
  advance_pc = modify (λ m. record m { state = set_pc m.next_pc m.state })

  -- Exception: what ProcessException throws is a std::runtime_error.
  unfoldable pub exception : SimException → Action (Machine M) (Unit {0})
  exception e m = elim (process_exception e m.state) [
    | some s ↦ (done tt, record m { state = s })
    | none ↦ (runtime_error, m)
  ]

  -- The catch of Execute takes a SIM_EXCEPTIONS only.
  unfoldable pub catch_exception : Action (Machine M) (Unit {0}) → Action (Machine M) (Unit {0})
  unfolding exception
  catch_exception a m =
      let (r, n) = a m in
      elim r [
        | done u ↦ (done u, n)
        | thrown e ↦ exception e n
        | runtime_error ↦ (runtime_error, n)
        | undefined ↦ (undefined, n)
      ]

  module _ (p : MemoryPort M) where
    unfoldable pub execute : Mnemonic → ℕ → Action (Machine M) (Unit {0})
    unfolding catch_exception step advance_pc
    execute name encoding =
        catch_exception (step p (decode (format name) encoding no_fields) name >> advance_pc)

    -- The loop of Writeback. A throw of WriteMemory leaves the loop.
    unfoldable pub write_all : List MemoryAccess → M → Outcome (Unit {0}) × M
    unfolding is_write is_data aligned
    write_all [] memory = (done tt, memory)
    write_all (a ∷ more) memory =
        let (r, written) =
          if is_write a
          then p.write_memory a.address a.size (aligned a) a.membuffer memory
          else (done tt, memory) in
        elim r [
          | done u ↦ write_all more written
          | thrown e ↦ (thrown e, written)
          | runtime_error ↦ (runtime_error, written)
          | undefined ↦ (undefined, written)
        ]

    -- Writeback: the core takes the registers of the instruction's state, then memory is written.
    unfoldable pub writeback : Machine M → RiscvState → Outcome (Unit {0}) × (RiscvState × M)
    unfolding write_all update
    writeback m core =
        let (r, memory) = write_all m.m_ops m.memory in (r, (update m.state core, memory))
