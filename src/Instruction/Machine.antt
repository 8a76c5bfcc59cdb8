-- ===== src/Instruction/Machine.antt =====
-- What an instruction works on, and the accessors of RiscvInstruction
-- (include/riscv_instruction.h, src/riscv_instruction.C). The host is little-endian.
use dimebox.Common.{
  ℕ, zero, suc, Bool, ◌||◌, ◌+◌, ◌-◌, ◌*◌, List, [], ◌∷◌, ◌++◌, bit_and, bit_or, ◌<<<◌, ◌>>>◌, ◌==◌,
  ◌!=◌, u32, u64, int_to_u64, if◌then◌else◌,
}
use dimebox.Exceptions.{SimException}
use dimebox.Outcome.{Outcome, done, thrown, runtime_error, undefined}
use dimebox.Action.{Action, gets, modify}
use dimebox.State.{RiscvState, gp, set_gp, compressed_extension_enabled, record_misaligned_address}
use dimebox.State.Csr.{csr, set_csr}
use dimebox.Instruction.Access.{MemoryAccess, data_op}

-- The memory that an instruction is given: Memory::ReadMemory and Memory::WriteMemory, for the
-- flags that an instruction passes. A read fills the first bytes of a buffer.
pub record MemoryPort (M : Type 0) : Type 0 where
  pub read_memory : ℕ → ℕ → List ℕ → M → Outcome (List ℕ) × M
  pub write_memory : ℕ → ℕ → Bool → List ℕ → M → Outcome (Unit {0}) × M

-- The state that the instruction runs on, the memory, and the members of the instruction that its
-- execution changes.
pub record Machine (M : Type 0) : Type 0 where
  pub state : RiscvState
  pub memory : M
  pub next_pc : ℕ
  pub mbuf : List ℕ
  pub m_ops : List MemoryAccess

-- The loop of SignExtend, from bit `i` on.
unfoldable pub fill_ones : ℕ → ℕ → ℕ → ℕ
fill_ones zero i op = op
fill_ones (suc rounds) i op = fill_ones rounds (i + 1) (bit_or op (1 <<< i))

unfoldable pub sign_extend : ℕ → ℕ → ℕ
unfolding fill_ones
sign_extend op field_width =
    let sign_bit = field_width - 1 in
    if bit_and (op >>> sign_bit) 1 == 1 then fill_ones (64 - sign_bit) sign_bit op else op

-- The bytes of a value, lowest first, as MEMORY_WRITE stores them.
unfoldable pub to_bytes : ℕ → ℕ → List ℕ
to_bytes zero rval = []
to_bytes (suc n) rval = bit_and rval 0xff ∷ to_bytes n (rval >>> 8)

-- `rval | (mbuf[i] << (i * 8))` from byte `i` on. The shift is made in `int`, whose sign is copied
-- when the result is widened.
unfoldable pub from_bytes : ℕ → ℕ → List ℕ → ℕ → ℕ
from_bytes zero i bytes rval = rval
from_bytes (suc n) i [] rval = rval
from_bytes (suc n) i (b ∷ bytes) rval =
    from_bytes n (i + 1) bytes (bit_or rval (int_to_u64 (u32 (b <<< (i * 8)))))

abbrev pub is_access_size : ℕ → Bool
is_access_size n = (n == 1) || ((n == 2) || ((n == 4) || (n == 8)))

abbrev pub drop : {A : Type 0} → ℕ → List A → List A
drop zero xs = xs
drop (suc n) [] = []
drop (suc n) (x ∷ xs) = drop n xs

module _ {M : Type 0} where
  -- The registers are read as `unsigned int`.
  unfoldable pub x_reg : ℕ → Action (Machine M) ℕ
  x_reg i = gets (λ m. u32 (gp i m.state))

  unfoldable pub set_x : ℕ → ℕ → Action (Machine M) (Unit {0})
  set_x i v = modify (λ m. record m { state = set_gp i (u32 v) m.state })

  unfoldable pub set_sp : ℕ → Action (Machine M) (Unit {0})
  set_sp v = modify (λ m. record m { state = set_gp 2 (u64 v) m.state })

  unfoldable pub pc : Action (Machine M) ℕ
  pc = gets (λ m. u32 m.state.pc)

  unfoldable pub read_csr_reg : ℕ → Action (Machine M) ℕ
  read_csr_reg n m = (csr n 3 m.state, m)

  unfoldable pub write_csr_reg : ℕ → ℕ → Action (Machine M) (Unit {0})
  write_csr_reg n v m = elim (set_csr n 3 v m.state) [
    | done s ↦ (done tt, record m { state = s })
    | thrown e ↦ (thrown e, m)
    | runtime_error ↦ (runtime_error, m)
    | undefined ↦ (undefined, m)
  ]

  -- SetPC: a misaligned target is recorded and thrown, else it is the next PC.
  unfoldable pub branch_to : ℕ → ℕ → Action (Machine M) (Unit {0})
  branch_to target alignment m =
      let mask = if compressed_extension_enabled m.state then 1 else alignment - 1 in
      if bit_and target mask != 0
      then (
        thrown SimException.instruction_address_misaligned,
        record m { state = record_misaligned_address target m.state },
      )
      else (done tt, record m { next_pc = u32 target })

  module _ (p : MemoryPort M) where
    unfoldable pub memory_read : ℕ → ℕ → Action (Machine M) ℕ
    unfolding from_bytes
    memory_read address size m =
        if is_access_size size
        then (let (r, memory) = p.read_memory address size m.mbuf m.memory in
            elim r [
              | done bytes ↦ (
                done (from_bytes size 0 bytes 0),
                record m {
                  memory = memory;
                  mbuf = bytes;
                  m_ops = m.m_ops ++ data_op address size 0 [] ∷ [];
                },
              )
              | thrown e ↦ (thrown e, record m { memory = memory })
              | runtime_error ↦ (runtime_error, record m { memory = memory })
              | undefined ↦ (undefined, record m { memory = memory })
            ])
        else (runtime_error, m)

  unfoldable pub memory_write : ℕ → ℕ → ℕ → Action (Machine M) (Unit {0})
  unfolding to_bytes
  memory_write address size rval m =
      if is_access_size size
      then (
        done tt,
        record m {
          mbuf = to_bytes size rval ++ drop size m.mbuf;
          m_ops = m.m_ops ++ data_op address size 1 (to_bytes size rval) ∷ [];
        },
      )
      else (runtime_error, m)
