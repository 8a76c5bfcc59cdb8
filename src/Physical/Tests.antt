-- ===== src/Physical/Tests.antt =====
-- The theorems on physical memory, at a concrete store.
use dimebox.Common.{
  ℕ, true, false, ◌+◌, ◌-◌, ◌^◌, ◌<◌, ◌≡◌, refl, arith, some, zero-and, ◌<<<◌, if◌then◌else◌,
}
use dimebox.Physical.Block.{returned, new_block, byte_is_free, offset}
use dimebox.Physical.Bytes.{in_range}
use dimebox.Physical.Store.{Store, read, write}
use dimebox.Physical.Held.{held}
use dimebox.Physical.Memory.{write-held}
use dimebox.Physical.Readback.{ReadBack, read-held}
use dimebox.Physical.RoundTrip.{read-write}

abbrev rand : ℕ → ℕ
rand n = n

abbrev empty_store : Store
empty_store = record { blocks = λ _. new_block (λ _. 0); draws = 0 }

-- Every byte is in use and holds 7.
abbrev filled_store : Store
filled_store = record {
  blocks = λ _. record {
    mptr_allocated = true;
    mptr = λ _. 7;
    init_allocated = true;
    mptr_init = λ _. 0;
    free_bytes = 0;
    initial_byte_value = 0x100;
  };
  draws = 0;
}

-- Eight bytes over the end of the block at 0.
read-write_example :
    (t : Store) × (write rand 30 (λ i. i + 1) 8 false empty_store ≡ returned t)
    × ReadBack t 8 (λ i. i + 1) (read rand 30 (λ _. 0) true 8 t)
read-write_example =
    read-write rand 30 (λ i. i + 1) (λ _. 0) 8 false true empty_store (omega arith) (omega arith)
      (omega arith)

write-held_example :
    (t : Store) × (write rand 30 (λ i. i + 1) 8 false empty_store ≡ returned t)
    × ((a : ℕ)
        → a < 2 ^ 64
        → held t a ≡ (if in_range 30 8 a then some (a - 30 + 1) else held empty_store a))
write-held_example =
    write-held rand 30 (λ i. i + 1) 8 false empty_store (omega arith) (omega arith) (omega arith)

read-held_example : ReadBack filled_store 8 (λ _. 7) (read rand 30 (λ _. 0) true 8 filled_store)
unfolding byte_is_free
read-held_example =
    read-held rand 30 (λ _. 0) 8 true (λ _. 7) filled_store (omega arith) (omega arith)
      (omega arith) (λ k h. rw (zero-and (1 <<< offset (30 + k))) refl)
