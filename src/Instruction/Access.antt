-- ===== src/Instruction/Access.antt =====
-- include/memory_access.h: a read or a write that an instruction has queued.
use dimebox.Common.{ℕ, Bool, true, false, ◌||◌, ◌-◌, List, bit_and, ◌==◌, if◌then◌else◌}

abbrev pub instruction_access : ℕ
instruction_access = 0

abbrev pub data_access : ℕ
data_access = 1

pub record MemoryAccess : Type 0 where
  pub address : ℕ
  pub size : ℕ
  pub type : ℕ
  pub exclusive : Bool
  pub direction : ℕ
  pub big_endian : Bool
  pub word_size : ℕ
  pub sign_extend : Bool
  pub rwidth : ℕ
  pub paired : Bool
  pub privileged : Bool
  pub exclusive_passed : Bool
  pub membuffer : List ℕ

unfoldable pub is_write : MemoryAccess → Bool
is_write a = a.direction == 1

unfoldable pub is_data : MemoryAccess → Bool
is_data a = if a.type == instruction_access then false else true

unfoldable pub aligned : MemoryAccess → Bool
aligned a = (a.word_size == 1) || (bit_and (a.word_size - 1) a.address == 0)

unfoldable pub sign_bit : MemoryAccess → ℕ
sign_bit a =
    if a.word_size == 1
    then 8
    else if a.word_size == 2
    then 16
    else if a.word_size == 4
    then 32
    else 64

-- The constructor: the bytes are copied for a data write; those of a read stay as they are.
unfoldable pub data_op : ℕ → ℕ → ℕ → List ℕ → MemoryAccess
data_op address size direction bytes = record {
  address = address;
  size = size;
  type = data_access;
  exclusive = false;
  direction = direction;
  big_endian = false;
  word_size = size;
  sign_extend = false;
  rwidth = 32;
  paired = false;
  privileged = false;
  exclusive_passed = false;
  membuffer = bytes;
}
