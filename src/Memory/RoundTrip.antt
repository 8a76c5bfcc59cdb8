-- ===== src/Memory/RoundTrip.antt =====
-- A write of the memory that a simulator has, and a read of it (src/memory.C).
use dimebox.Common.{
  ℕ, Bool, true, not, ◌≡◌, ◌<◌, ◌≤◌, refl, arith, ◌∙◌, ◌&&◌, ◌+◌, ◌-◌, ◌^◌, u64, bit_and, and_ones,
  none, List, [], ◌∷◌,
}
use dimebox.Physical.Block as Block
use dimebox.Physical.Store as Store
use dimebox.Physical.RoundTrip.{read-write}
use dimebox.Memory.{
  Memory, Device, value, validate_physical_memory_address, pa_mask, physical_address_range,
  validate_range,
}
use dimebox.Memory.Devices.{Buffer, write_devices, read_devices, answers}
use dimebox.Memory.Physical.{
  validate_access, write_physical_memory, read_physical_memory, write_at, read_at, store_outcome,
  read_outcome,
}

-- No device answers.
abbrev pub is_silent : ℕ → List Device → Bool
is_silent pa [] = true
is_silent pa (device ∷ devices) = not (answers pa device) && is_silent pa devices

pub write_devices-silent :
    (pa n : ℕ) (buffer : Buffer) (for_test : Bool) (devices : List Device)
    → is_silent pa devices ≡ true
    → write_devices pa buffer n for_test devices ≡ none
unfolding write_devices
write_devices-silent pa n buffer for_test [] h = refl
write_devices-silent pa n buffer for_test (device ∷ devices) h =
    ground (arith, write_devices-silent pa n buffer for_test devices)

pub read_devices-silent :
    (pa n : ℕ) (buffer : Buffer) (for_test : Bool) (devices : List Device)
    → is_silent pa devices ≡ true
    → read_devices pa buffer n for_test devices ≡ none
unfolding read_devices
read_devices-silent pa n buffer for_test [] h = refl
read_devices-silent pa n buffer for_test (device ∷ devices) h =
    ground (arith, read_devices-silent pa n buffer for_test devices)

-- The memory of the simulator: 32 bits of address, all of them in range.
pub record IsConfigured (m : Memory) : Type 0 where
  pub bits : m.size_in_bits ≡ 32
  pub lo : m.physical_address_lo ≡ 0
  pub hi : m.physical_address_hi ≡ 2 ^ 32 - 1

validate-configured :
    (a : ℕ) (for_test : Bool) (m : Memory)
    → IsConfigured m
    → a < 2 ^ 32
    → validate_physical_memory_address a for_test m ≡ value a
unfolding validate_physical_memory_address pa_mask physical_address_range validate_range
validate-configured a for_test m c small =
    let same : bit_and a (2 ^ 32 - 1) ≡ a = and_ones 32 a ∙ omega arith in
    rw (c.bits, c.lo, c.hi) (ground (arith, same))

pub validate_access-configured :
    (a n : ℕ) (for_test : Bool) (m : Memory)
    → IsConfigured m
    → 0 < n
    → a + n ≤ 2 ^ 32
    → validate_access a n for_test m ≡ value a
unfolding validate_access
validate_access-configured a n for_test m c some_bytes bound =
    let last : u64 (a + n + (2 ^ 64 - 1)) ≡ a + n - 1 = omega arith in
    let first_valid = validate-configured a for_test m c (omega arith) in
    let last_valid = validate-configured (a + n - 1) for_test m c (omega arith) in
    rw (validate_access, first_valid, last, last_valid) refl

module _ (rand : ℕ → ℕ) where
  write_physical_memory-returned :
      (a n : ℕ) (buffer : Buffer) (for_test initial : Bool) (m : Memory) (t : Store.Store)
      → IsConfigured m
      → is_silent a m.devices ≡ true
      → 0 < n
      → a + n ≤ 2 ^ 32
      → Store.write rand a buffer n initial m.phys_mem ≡ Block.returned t
      → write_physical_memory rand a n buffer for_test initial m
        ≡ (value 0, record m { phys_mem = t })
  unfolding write_physical_memory write_at store_outcome
  write_physical_memory-returned a n buffer for_test initial m t c silent some_bytes bound written =
      rw
        (
          write_physical_memory,
          validate_access-configured a n for_test m c some_bytes bound,
          write_at,
          write_devices-silent a n buffer for_test m.devices silent,
          written,
        )
        refl

  read_physical_memory-returned :
      (a n : ℕ) (into : Buffer) (for_test init : Bool) (m : Memory) (code : ℕ) (bytes : Buffer)
      (t : Store.Store)
      → IsConfigured m
      → is_silent a m.devices ≡ true
      → 0 < n
      → a + n ≤ 2 ^ 32
      → Store.read rand a into init n m.phys_mem ≡ Block.returned (code, (bytes, t))
      → read_physical_memory rand a n into for_test init m
        ≡ (value (code, bytes), record m { phys_mem = t })
  unfolding read_physical_memory read_at read_outcome
  read_physical_memory-returned a n into for_test init m code bytes t c silent some_bytes bound
        got =
      rw
        (
          read_physical_memory,
          validate_access-configured a n for_test m c some_bytes bound,
          read_at,
          read_devices-silent a n into for_test m.devices silent,
          got,
        )
        refl

  -- A write of 1 to 32 bytes to addresses that no device has succeeds, and a read of as many bytes
  -- from there then gives the same bytes, in the memory that the simulator sets up.
  pub read_physical_memory-write_physical_memory :
      (a n : ℕ) (buffer into : Buffer) (for_test initial init : Bool) (m : Memory)
      → IsConfigured m
      → is_silent a m.devices ≡ true
      → 0 < n
      → n ≤ 32
      → a + n ≤ 2 ^ 32
      → (t : Memory) × (bytes : Buffer) × (u : Memory) × (write_physical_memory rand a n buffer
            for_test initial m
          ≡ (value 0, t))
        × (read_physical_memory rand a n into for_test init t ≡ (value (0, bytes), u))
        × ((k : ℕ) → k < n → bytes k ≡ buffer k)
  read_physical_memory-write_physical_memory a n buffer into for_test initial init m c silent
        some_bytes small bound =
      let (s, written, back) =
        read-write rand a buffer into n initial init m.phys_mem some_bytes small (omega arith) in
      let t = record m { phys_mem = s } in
      (
        t,
        back.bytes,
        record m { phys_mem = back.after },
        write_physical_memory-returned a n buffer for_test initial m s c silent some_bytes bound
            written,
        read_physical_memory-returned a n into for_test init t 0 back.bytes back.after
            (record { bits = c.bits; lo = c.lo; hi = c.hi }) silent some_bytes bound back.succeeds,
        back.values,
      )
