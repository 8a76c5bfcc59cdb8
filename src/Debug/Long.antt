-- ===== src/Debug/Long.antt =====
-- The commands `m` and `M` for more bytes than a block has (src/debug_server.C, src/memory.C).
use dimebox.Common.{
  ℕ, Bool, true, false, ◌≡◌, ◌<◌, ◌≤◌, refl, arith, ◌&&◌, ◌+◌, ◌-◌, ◌^◌, leb, some, ◌∷◌,
}
use dimebox.Physical.Block as Block
use dimebox.Physical.Block.{BlockOutcome, mem_error, Drawn, offset, block_address}
use dimebox.Physical.Store as Store
use dimebox.Rsp.Text.{codes}
use dimebox.Rsp.Command.{response, uncaught}
use dimebox.Memory.{Memory, block_error}
use dimebox.Memory.Devices.{Buffer}
use dimebox.Memory.Physical.{
  read_physical_memory, write_physical_memory, read_at, write_at, read_outcome, store_outcome,
}
use dimebox.Memory.RoundTrip.{
  IsConfigured, is_silent, validate_access-configured, write_devices-silent, read_devices-silent,
}
use dimebox.Debug.Session.{Session}
use dimebox.Debug.Memory.{
  spell_bytes, byte_at, read_bytes, write_bytes, write_scanned, read_reply, write_reply,
}
use dimebox.Debug.MemoryLaws.{listed, scan_bytes-spelled}
use dimebox.Debug.Port.{port}

validate_access-long :
    {A : Type 0}
    → (o n : ℕ) (rest : BlockOutcome A) → 32 < n
    → Block.validate_access o n rest ≡ mem_error
unfolding Block.validate_access
validate_access-long o n rest long = ground arith

module _ (rand : ℕ → ℕ) where
  block_read-long :
      (a n : ℕ) (buffer : Buffer) (init : Bool) (d : Drawn)
      → 32 < n
      → Block.read rand a buffer n init d ≡ mem_error
  unfolding Block.read
  block_read-long a n buffer init d long = validate_access-long (offset a) n _ long

  block_write-long :
      (a n : ℕ) (buffer : Buffer) (initial : Bool) (d : Drawn)
      → 32 < n
      → Block.write rand a buffer n initial d ≡ mem_error
  unfolding Block.write
  block_write-long a n buffer initial d long = validate_access-long (offset a) n _ long

  read-long :
      (a n : ℕ) (buffer : Buffer) (init : Bool) (s : Store.Store)
      → 32 < n
      → Store.read rand a buffer init n s ≡ mem_error
  unfolding Store.read Store.read_line
  read-long a n buffer init s long =
      rw
        (
          Store.read,
          Store.read_line,
          block_read-long a n buffer init (Store.block_of (block_address a) s) long,
        )
        refl

  write-long :
      (a n : ℕ) (buffer : Buffer) (initial : Bool) (s : Store.Store)
      → 32 < n
      → Store.write rand a buffer n initial s ≡ mem_error
  unfolding Store.write Store.write_line
  write-long a n buffer initial s long =
      rw
        (
          Store.write,
          Store.write_line,
          block_write-long a n buffer initial (Store.block_of (block_address a) s) long,
        )
        refl

  write_physical_memory-long :
      (a n : ℕ) (buffer : Buffer) (m : Memory)
      → IsConfigured m
      → is_silent a m.devices ≡ true
      → 32 < n
      → a + n ≤ 2 ^ 32
      → write_physical_memory rand a n buffer false false m ≡ (block_error, m)
  unfolding write_physical_memory write_at store_outcome
  write_physical_memory-long a n buffer m c silent long bound =
      rw
        (
          write_physical_memory,
          validate_access-configured a n false m c (omega arith) bound,
          write_at,
          write_devices-silent a n buffer false m.devices silent,
          write-long a n buffer false m.phys_mem long,
        )
        refl

  read_physical_memory-long :
      (a n : ℕ) (into : Buffer) (m : Memory)
      → IsConfigured m
      → is_silent a m.devices ≡ true
      → 32 < n
      → a + n ≤ 2 ^ 32
      → read_physical_memory rand a n into false true m ≡ (block_error, m)
  unfolding read_physical_memory read_at read_outcome
  read_physical_memory-long a n into m c silent long bound =
      rw
        (
          read_physical_memory,
          validate_access-configured a n false m c (omega arith) bound,
          read_at,
          read_devices-silent a n into false m.devices silent,
          read-long a n into true m.phys_mem long,
        )
        refl

  -- For more than 32 bytes at addresses that no device has, a read is answered with an error, and a
  -- write of well-formed bytes ends in an exception that nothing catches; neither changes anything.
  pub read_bytes-long :
      (a n : ℕ) (f : Buffer) (s : Session Memory)
      → IsConfigured s.memory
      → is_silent a s.memory.devices ≡ true
      → ((k : ℕ) → f k < 256)
      → 32 < n
      → n < 2 ^ 31
      → a + n ≤ 2 ^ 32
      → (read_bytes (port rand) a n s ≡ (response (codes "E0"), s))
        × (write_bytes (port rand) a n (some (b':' ∷ spell_bytes n 0 f)) s ≡ (uncaught, s))
  unfolding read_bytes read_reply write_bytes write_scanned write_reply port
  read_bytes-long a n f s c silent bounded long small bound =
      let positive : (leb 1 n && leb n (2 ^ 31 - 1)) ≡ true = ground arith in
      let buffer = byte_at (listed n 0 f) in
      (
        rw
            (
              read_bytes,
              positive,
              read_physical_memory-long a n (λ i. 0) s.memory c silent long bound,
            )
            refl,
        rw
            (
              write_bytes,
              positive,
              scan_bytes-spelled n 0 f bounded,
              write_scanned,
              write_physical_memory-long a n buffer s.memory c silent long bound,
            )
            refl,
      )
