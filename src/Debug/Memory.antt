-- ===== src/Debug/Memory.antt =====
-- ReadMemory and WriteMemory (src/debug_server.C), with the physical memory that they work on as
-- the client of an interface. An array of `msize` bytes with `msize` below 1 is undefined in C++;
-- that the stack has room for the array is taken for granted.
use dimebox.Common.{
  ℕ, zero, suc, Bool, ◌&&◌, ◌+◌, ◌-◌, ◌^◌, ◌==◌, leb, if◌then◌else◌, u8, Option, none, some, List,
  [], ◌∷◌, ◌++◌,
}
use dimebox.Rsp.Text.{Text, codes, length, drop, find, hex2}
use dimebox.Rsp.Scan
use dimebox.Rsp.Scan.{Scanner, scan_d, scan_unsigned, scan_x, literal, ◌>>=◌, ◌>>◌, pure}
use dimebox.Rsp.Command.{Reply, response, uncaught, undefined}
use dimebox.Debug.Session.{Session}

-- How an access ends: with a value, with a SIM_EXCEPTIONS, or with another exception.
pub data Access (A : Type 0) : Type 0 where
  finished : A → Access A
  sim_exception other_exception : Access A

-- ReadPhysicalMemory and WritePhysicalMemory: the address, the number of bytes, the bytes. A read
-- gives its code, and the bytes.
pub record MemoryPort (M : Type 0) : Type 0 where
  pub read_physical : ℕ → ℕ → M → Access (ℕ × (ℕ → ℕ)) × M
  pub write_physical : ℕ → ℕ → (ℕ → ℕ) → M → Access (Unit {0}) × M

-- The bytes `i` and up to `n` more, as text.
unfoldable pub spell_bytes : ℕ → ℕ → (ℕ → ℕ) → Text
unfolding hex2
spell_bytes zero i mbuf = []
spell_bytes (suc n) i mbuf = hex2 (mbuf i) ++ spell_bytes n (i + 1) mbuf

abbrev pub byte_at : List ℕ → ℕ → ℕ
byte_at [] i = 0
byte_at (b ∷ bytes) zero = b
byte_at (b ∷ bytes) (suc i) = byte_at bytes i

-- What the loop of WriteMemory comes to.
pub data Scanned : Type 0 where
  bytes : List ℕ → Scanned
  malformed behind_end not_defined : Scanned

abbrev pub cons : ℕ → Scanned → Scanned
cons b (bytes bs) = bytes (b ∷ bs)
cons b malformed = malformed
cons b behind_end = behind_end
cons b not_defined = not_defined

-- `n` bytes of two digits each; substr throws when it starts behind the end of the text.
unfoldable pub scan_bytes : ℕ → Option Text → Scanned
unfolding scan_x
scan_bytes zero text = bytes []
scan_bytes (suc n) none = behind_end
scan_bytes (suc n) (some text) =
    let rest = scan_bytes n (if leb 2 (length text) then some (drop 2 text) else none) in
    elim (scan_x 32 2 text) [
      | Scan.matched bval _ ↦ cons (u8 bval) rest
      | Scan.unmatched ↦ malformed
      | Scan.undefined ↦ not_defined
    ]

-- "%llx,%d".
unfoldable pub scan_range : Scanner (ℕ × ℕ)
unfolding scan_d scan_unsigned literal
scan_range = scan_unsigned 64 >>= λ maddr. (literal b',' >> scan_d) >>= λ msize. pure (maddr, msize)

abbrev is_positive : ℕ → Bool
is_positive msize = leb 1 msize && leb msize (2 ^ 31 - 1)

module _ {M : Type 0} (port : MemoryPort M) where
  -- The reply to a read, from how the access ends.
  unfoldable pub read_reply : ℕ → Access (ℕ × (ℕ → ℕ)) → Reply
  unfolding spell_bytes
  read_reply msize (finished (code, mbuf)) =
      if code == 0 then response (spell_bytes msize 0 mbuf) else response (codes "E0")
  read_reply msize sim_exception = response (codes "E0")
  read_reply msize other_exception = response (codes "E0")

  unfoldable pub read_bytes : ℕ → ℕ → Session M → Reply × Session M
  unfolding read_reply
  read_bytes maddr msize s =
      if is_positive msize
      then (let (access, memory) = port.read_physical maddr msize s.memory in
          (read_reply msize access, record s { memory = memory }))
      else (undefined, s)

  unfoldable pub read_memory : Text → Session M → Reply × Session M
  unfolding scan_range read_bytes
  read_memory pdata s = elim (scan_range (drop 1 pdata)) [
    | Scan.matched (maddr, msize) _ ↦ read_bytes maddr msize s
    | Scan.unmatched ↦ (response (codes "E1"), s)
    | Scan.undefined ↦ (undefined, s)
  ]

  unfoldable pub write_reply : Access (Unit {0}) → Reply
  write_reply (finished done) = response (codes "OK")
  write_reply sim_exception = response (codes "E2")
  write_reply other_exception = uncaught

  unfoldable pub write_scanned : ℕ → ℕ → Scanned → Session M → Reply × Session M
  unfolding write_reply
  write_scanned maddr msize (bytes bs) s =
      let (access, memory) = port.write_physical maddr msize (byte_at bs) s.memory in
      (write_reply access, record s { memory = memory })
  write_scanned maddr msize malformed s = (response (codes "E2"), s)
  write_scanned maddr msize behind_end s = (uncaught, s)
  write_scanned maddr msize not_defined s = (undefined, s)

  unfoldable pub write_bytes : ℕ → ℕ → Option Text → Session M → Reply × Session M
  unfolding scan_bytes write_scanned
  write_bytes maddr msize none s = (response (codes "E1"), s)
  write_bytes maddr msize (some value) s =
      if is_positive msize
      then write_scanned maddr msize (scan_bytes msize (some (drop 1 value))) s
      else (undefined, s)

  unfoldable pub write_memory : Text → Session M → Reply × Session M
  unfolding scan_range find write_bytes
  write_memory pdata s = elim (scan_range (drop 1 pdata)) [
    | Scan.matched (maddr, msize) _ ↦ write_bytes maddr msize (find pdata (codes ":")) s
    | Scan.unmatched ↦ (response (codes "E1"), s)
    | Scan.undefined ↦ (undefined, s)
  ]
