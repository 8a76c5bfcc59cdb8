-- ===== src/Physical/Block.antt =====
-- MemBlock: a block of 32 bytes with a mark for each byte that was never used.
use dimebox.Common.{
  ℕ, zero, suc, Bool, true, false, ◌&&◌, ◌||◌, ◌+◌, ◌-◌, ◌^◌, bit_and, ◌<<<◌, ◌==◌, ◌!=◌, ltb, leb,
  not64, u8, if◌then◌else◌,
}

abbrev pub block_size : ℕ
block_size = 32

abbrev pub random_initial_value : ℕ
random_initial_value = 0x100

-- The codes of a read.
abbrev pub all_bytes_defined : ℕ
all_bytes_defined = 0

abbrev pub some_bytes_undefined : ℕ
some_bytes_undefined = 1

abbrev pub all_bytes_free : ℕ
all_bytes_free = 2

-- MBLOCK_ERROR, or a value. A split access is thrown before anything is changed; nothing goes on
-- after a MEM_ERROR, so it has no state.
pub data BlockOutcome (A : Type 0) : Type 0 where
  returned : A → BlockOutcome A
  split_access mem_error : BlockOutcome A

-- A pointer to an array is a mark that it is allocated and the array.
pub record MemBlock : Type 0 where
  pub mptr_allocated : Bool
  pub mptr : ℕ → ℕ
  pub init_allocated : Bool
  pub mptr_init : ℕ → ℕ
  pub free_bytes : ℕ
  pub initial_byte_value : ℕ

abbrev pub set_at : ℕ → ℕ → (ℕ → ℕ) → ℕ → ℕ
set_at i v bytes j = if j == i then v else bytes j

unfoldable pub new_block : (ℕ → ℕ) → MemBlock
new_block bytes = record {
  mptr_allocated = false;
  mptr = bytes;
  init_allocated = false;
  mptr_init = bytes;
  free_bytes = 0;
  initial_byte_value = random_initial_value;
}

unfoldable pub set_initial_byte_value : ℕ → MemBlock → MemBlock
set_initial_byte_value v b = record b { initial_byte_value = v }

unfoldable pub block_address : ℕ → ℕ
block_address address = bit_and address (not64 31)

unfoldable pub offset : ℕ → ℕ
offset address = bit_and address 31

-- ValidateAccess, with a buffer: the rest of the access is run if it is valid.
unfoldable pub validate_access : {A : Type 0} → ℕ → ℕ → BlockOutcome A → BlockOutcome A
validate_access offset number_of_bytes rest =
    if leb block_size offset
    then mem_error
    else if (number_of_bytes == 0) || ltb block_size number_of_bytes
    then mem_error
    else if ltb block_size (offset + number_of_bytes)
    then split_access
    else rest

-- The array that was allocated is not initialised: it is what the memory held.
unfoldable pub allocate_block : MemBlock → MemBlock
allocate_block b =
    if b.mptr_allocated then b else record b { mptr_allocated = true; free_bytes = 2 ^ 64 - 1 }

-- A block, and how many numbers rand() has given.
pub record Drawn : Type 0 where
  pub block : MemBlock
  pub draws : ℕ

module _ (rand : ℕ → ℕ) where
  unfoldable pub initial_byte : Drawn → ℕ × ℕ
  initial_byte d =
      if d.block.initial_byte_value == random_initial_value
      then (bit_and (rand d.draws) 0xff, d.draws + 1)
      else (u8 d.block.initial_byte_value, d.draws)

  -- The loop of AllocateInitBlock, from byte `i` on.
  unfoldable pub fill_init : ℕ → ℕ → Drawn → Drawn
  unfolding initial_byte
  fill_init zero i d = d
  fill_init (suc n) i d =
      let (v, draws) = initial_byte d in
      fill_init n (i + 1) (record {
        block = record d.block { mptr_init = set_at i v d.block.mptr_init };
        draws = draws;
      })

  unfoldable pub allocate_init_block : Drawn → Drawn
  unfolding fill_init
  allocate_init_block d =
      if d.block.init_allocated
      then d
      else fill_init block_size 0 (record d { block = record d.block { init_allocated = true } })

unfoldable pub byte_is_free : ℕ → MemBlock → Bool
byte_is_free i b = bit_and b.free_bytes (1 <<< i) != 0

unfoldable pub write_byte : ℕ → ℕ → Bool → MemBlock → MemBlock
write_byte i v is_initial_value b = record b {
  mptr = set_at i v b.mptr;
  free_bytes = bit_and b.free_bytes (not64 (1 <<< i));
  mptr_init = if is_initial_value then set_at i v b.mptr_init else b.mptr_init;
}

-- The loop of ByteCount, from byte `i` on.
unfoldable pub count_used : ℕ → ℕ → MemBlock → ℕ
unfolding byte_is_free
count_used zero i b = 0
count_used (suc n) i b = (if byte_is_free i b then 0 else 1) + count_used n (i + 1) b

unfoldable pub byte_count : MemBlock → ℕ
unfolding count_used
byte_count b = count_used block_size 0 b

-- The loop of Write, from byte `i` on.
unfoldable pub write_loop : ℕ → ℕ → ℕ → (ℕ → ℕ) → Bool → MemBlock → MemBlock
unfolding write_byte
write_loop zero i at buffer initial b = b
write_loop (suc n) i at buffer initial b =
    write_loop n (i + 1) at buffer initial (write_byte (at + i) (buffer i) initial b)

-- What a read has done so far: the block, the bytes read, and how many of them were free.
pub record Reading : Type 0 where
  pub source : MemBlock
  pub bytes : ℕ → ℕ
  pub undef_count : ℕ

unfoldable pub read_next : ℕ → ℕ → Bool → Reading → Reading
unfolding byte_is_free write_byte
read_next i index init_if_free r =
    let initial = r.source.mptr_init index in
    if byte_is_free index r.source
    then record {
      source = if init_if_free then write_byte index initial false r.source else r.source;
      bytes = set_at i initial r.bytes;
      undef_count = r.undef_count + 1;
    }
    else record r { bytes = set_at i (r.source.mptr index) r.bytes }

-- The loop of Read, from byte `i` on.
unfoldable pub read_loop : ℕ → ℕ → ℕ → Bool → Reading → Reading
unfolding read_next
read_loop zero i at init_if_free r = r
read_loop (suc n) i at init_if_free r =
    read_loop n (i + 1) at init_if_free (read_next i (at + i) init_if_free r)

unfoldable pub read_code : ℕ → ℕ → ℕ
read_code undef_count number_of_bytes =
    if undef_count == number_of_bytes
    then all_bytes_free
    else if ltb 0 undef_count
    then some_bytes_undefined
    else all_bytes_defined

module _ (rand : ℕ → ℕ) where
  unfoldable pub write : ℕ → (ℕ → ℕ) → ℕ → Bool → Drawn → BlockOutcome Drawn
  unfolding validate_access allocate_block allocate_init_block write_loop byte_count offset
  write address buffer number_of_bytes initial_values d =
      validate_access (offset address) number_of_bytes (
        let ready = allocate_init_block rand (record d { block = allocate_block d.block }) in
        let written =
          write_loop number_of_bytes 0 (offset address) buffer initial_values ready.block in
        if byte_count written == 0 then mem_error else returned (record ready { block = written }))

  -- The code, the buffer and the block after a read.
  unfoldable pub read : ℕ → (ℕ → ℕ) → ℕ → Bool → Drawn → BlockOutcome (ℕ × ((ℕ → ℕ) × Drawn))
  unfolding validate_access allocate_block allocate_init_block read_loop byte_count offset read_code
  read address buffer number_of_bytes init_if_free d =
      validate_access (offset address) number_of_bytes (
        let ready = allocate_init_block rand (record d { block = allocate_block d.block }) in
        let r =
          read_loop number_of_bytes 0 (offset address) init_if_free
            (record { source = ready.block; bytes = buffer; undef_count = 0 }) in
        if (byte_count r.source == 0) && init_if_free
        then mem_error
        else returned
            (read_code r.undef_count number_of_bytes, (r.bytes, record ready { block = r.source })))

-- ReadInitialState, into a buffer.
unfoldable pub read_initial_state : ℕ → Bool → MemBlock → BlockOutcome (ℕ → ℕ)
unfolding offset
read_initial_state address is_data b =
    if offset address != 0
    then mem_error
    else if is_data
    then (if b.init_allocated then returned b.mptr_init else mem_error)
    else if b.mptr_allocated
    then returned b.mptr
    else mem_error
