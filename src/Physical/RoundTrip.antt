-- ===== src/Physical/RoundTrip.antt =====
-- A read after a write in physical memory.
use dimebox.Common.{
  ℕ, Bool, true, ◌+◌, ◌-◌, ◌^◌, ◌<◌, ◌≤◌, ◌≡◌, ap, arith, ◌∙◌, if◌then◌else◌, some,
}
use dimebox.Physical.Block.{returned}
use dimebox.Physical.Bytes.{in_range}
use dimebox.Physical.Store.{Store, read, write}
use dimebox.Physical.Held.{held}
use dimebox.Physical.Memory.{write-held}
use dimebox.Physical.Readback.{ReadBack, read-held}

in_range-start : (address n k : ℕ) → k < n → in_range address n (address + k) ≡ true
in_range-start address n k h = ground arith

module _ (rand : ℕ → ℕ) where
  -- What 1 to 32 bytes are written to an address, in one block or over two, is what a read of as
  -- many bytes from there gives, whatever the memory held and whatever rand() gives.
  pub read-write :
      (address : ℕ) (buffer into : ℕ → ℕ) (n : ℕ) (initial init : Bool) (s : Store)
      → 0 < n
      → n ≤ 32
      → address + n ≤ 2 ^ 64
      → (t : Store) × (write rand address buffer n initial s ≡ returned t)
        × ReadBack t n buffer (read rand address into init n t)
  read-write address buffer into n initial init s some_bytes small bound =
      let (t, done, holds) = write-held rand address buffer n initial s some_bytes small bound in
      (
        t,
        done,
        read-held rand address into n init buffer t some_bytes small bound (λ k h.
            let index : address + k - address ≡ k = omega arith in
            holds (address + k) (omega arith)
            ∙ ap (λ c. if c then some (buffer (address + k - address)) else held s (address + k))
                (in_range-start address n k h)
            ∙ ap (λ (i : ℕ). some (buffer i)) index),
      )
