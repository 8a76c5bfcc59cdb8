-- ===== src/Physical/Readback.antt =====
-- Read of PhysicalMemory, also over two blocks, of bytes that are all in use.
use dimebox.Common.{
  ℕ, Bool, ◌+◌, ◌-◌, ◌^◌, ◌<◌, ◌≤◌, ◌≡◌, refl, sym, ap, arith, ◌∙◌, ◌==◌, ltb, if◌then◌else◌, some,
  Bool-cases, eq_of_==, ltb_of_<, ltb_of_≥, inl, inr, u64, <-cases,
}
use dimebox.Physical.Block.{
  Drawn, BlockOutcome, returned, split_access, mem_error, block_address, offset, block_size,
  all_bytes_defined, some_bytes_undefined,
}
use dimebox.Physical.Block as Block
use dimebox.Physical.Bytes.{contents}
use dimebox.Physical.Access.{read-split}
use dimebox.Physical.Fetch.{read_lem}
use dimebox.Physical.Store.{Store, read, read_line, block_of, set_block, join_parts}
use dimebox.Physical.Held.{
  offset_lem, block_address_lem, held, held-set_block, next_line, next_start,
}

-- What a read of `n` bytes does in a store where they are all in use.
pub record ReadBack (s : Store) (n : ℕ) (v : ℕ → ℕ) (result : BlockOutcome (ℕ × ((ℕ → ℕ) × Store)))
    : Type 0 where
  pub bytes : ℕ → ℕ
  pub after : Store
  pub succeeds : result ≡ returned (all_bytes_defined, (bytes, after))
  pub values : (k : ℕ) → k < n → bytes k ≡ v k
  pub keeps : (a : ℕ) → a < 2 ^ 64 → held after a ≡ held s a

-- Addresses of one block.
same_line :
    (address k : ℕ)
    → offset address + k < 32
    → address + k < 2 ^ 64
    → block_address (address + k) ≡ block_address address
same_line address k fits small = omega (
  arith,
  offset_lem address,
  block_address_lem address (omega arith),
  block_address_lem (address + k) small,
)

same_offset : (address k : ℕ) → offset address + k < 32 → offset (address + k) ≡ offset address + k
same_offset address k fits = omega (arith, offset_lem address, offset_lem (address + k))

module _ (rand : ℕ → ℕ) where
  read_line-returned :
      (line address : ℕ) (buffer : ℕ → ℕ) (n : ℕ) (init : Bool) (s : Store) (code : ℕ)
      (bytes : ℕ → ℕ) (e : Drawn)
      → Block.read rand address buffer n init (block_of line s) ≡ returned (code, (bytes, e))
      → read_line rand line address buffer n init s ≡ returned (code, (bytes, set_block line e s))
  unfolding read_line
  read_line-returned line address buffer n init s code bytes e h = rw (read_line, h) refl

  keeps_line :
      (line : ℕ) (e : Drawn) (s : Store)
      → ((j : ℕ) → j < 32 → contents e.block j ≡ contents (s.blocks line) j)
      → (a : ℕ) → held (set_block line e s) a ≡ held s a
  keeps_line line e s same a =
      held-set_block line e s a ∙ elim (Bool-cases (block_address a == line)) [
        | inl h ↦ rw h (
            same (offset a) (omega (arith, offset_lem a))
            ∙ ap (λ (t : ℕ). contents (s.blocks t) (offset a))
                (sym (eq_of_== (block_address a) line h)))
        | inr h ↦ rw h refl
      ]

  read_line-held :
      (address : ℕ) (buffer : ℕ → ℕ) (n : ℕ) (init : Bool) (v : ℕ → ℕ) (s : Store)
      → 0 < n
      → offset address + n ≤ 32
      → address + n ≤ 2 ^ 64
      → ((k : ℕ) → k < n → held s (address + k) ≡ some (v k))
      → ReadBack s n v (read_line rand (block_address address) address buffer n init s)
  unfolding block_of
  read_line-held address buffer n init v s some_bytes fits bound known =
      let line = block_address address in
      let there : (k : ℕ)
          → k < n
          → contents (block_of line s).block (offset address + k) ≡ some (v k) =
        λ k h.
          ap (λ (t : ℕ). contents (s.blocks line) t) (sym (same_offset address k (omega arith)))
          ∙ ap (λ (t : ℕ). contents (s.blocks t) (offset (address + k)))
              (sym (same_line address k (omega arith) (omega arith)))
          ∙ known k h in
      let (bytes, e, done, values, same) =
        read_lem rand address buffer n init v (block_of line s) some_bytes fits there in
      record {
        bytes = bytes;
        after = set_block line e s;
        succeeds = read_line-returned line address buffer n init s all_bytes_defined bytes e done;
        values = values;
        keeps = λ a h. keeps_line line e s same a;
      }

  read-whole :
      (address : ℕ) (buffer : ℕ → ℕ) (n : ℕ) (init : Bool) (s : Store) (r : ℕ × ((ℕ → ℕ) × Store))
      → read_line rand (block_address address) address buffer n init s ≡ returned r
      → read rand address buffer init n s ≡ returned r
  unfolding read
  read-whole address buffer n init s r h = rw (read, h) refl

  read_line-split :
      (address : ℕ) (buffer : ℕ → ℕ) (n : ℕ) (init : Bool) (s : Store)
      → n ≤ 32
      → 32 < offset address + n
      → read_line rand (block_address address) address buffer n init s ≡ split_access
  unfolding read_line
  read_line-split address buffer n init s small crosses =
      rw
        (
          read_line,
          read-split rand address buffer n init (block_of (block_address address) s)
              (omega (arith, offset_lem address)) small crosses,
        )
        refl

  join_parts-returned :
      (count : ℕ) (low high : ℕ → ℕ) (u : Store)
      → join_parts rand count all_bytes_defined low (returned (all_bytes_defined, (high, u)))
        ≡ returned (all_bytes_defined, ((λ i. if ltb i count then low i else high (i - count)), u))
  unfolding join_parts
  join_parts-returned count low high u = refl

  -- The two parts of a read, each with the code for defined bytes.
  read-two :
      (address second_line next : ℕ) (buffer : ℕ → ℕ) (n : ℕ) (init : Bool) (s t u : Store)
      (low high : ℕ → ℕ)
      → u64 (block_address address + block_size) ≡ second_line
      → u64 (address + (block_size - offset address)) ≡ next
      → read_line rand (block_address address) address buffer n init s ≡ split_access
      → (let count = block_size - offset address in
          (read_line rand (block_address address) address buffer count init s
            ≡ returned (all_bytes_defined, (low, t)))
          → (read_line rand second_line next (λ i. buffer (count + i)) (n - count) init t
              ≡ returned (all_bytes_defined, (high, u)))
          → read rand address buffer init n s
            ≡ returned
                (all_bytes_defined, ((λ i. if ltb i count then low i else high (i - count)), u)))
  unfolding read
  read-two address second_line next buffer n init s t u low high line start h k l =
      rw (read, h, k, line, start)
        (ap (join_parts rand (block_size - offset address) all_bytes_defined low) l
          ∙ join_parts-returned (block_size - offset address) low high u)

  -- The parts of what is read.
  joined_values :
      (count n k : ℕ) (low high v : ℕ → ℕ)
      → ((k : ℕ) → k < count → low k ≡ v k)
      → ((k : ℕ) → k < n - count → high k ≡ v (count + k))
      → k < n
      → (if ltb k count then low k else high (k - count)) ≡ v k
  joined_values count n k low high v first second h = elim (<-cases k count) [
    | inl below ↦ rw (ltb_of_< k count below) (first k below)
    | inr above ↦
        let index : count + (k - count) ≡ k = omega arith in
        rw (ltb_of_≥ k count above) (second (k - count) (omega arith) ∙ ap v index)
  ]

  read_both :
      (address : ℕ) (buffer : ℕ → ℕ) (n : ℕ) (init : Bool) (v : ℕ → ℕ) (s : Store)
      → n ≤ 32
      → 32 < offset address + n
      → address + n ≤ 2 ^ 64
      → ((k : ℕ) → k < n → held s (address + k) ≡ some (v k))
      → ReadBack s n v (read rand address buffer init n s)
  read_both address buffer n init v s small crosses bound known =
      let count = block_size - offset address in
      let next = address + count in
      let at = offset_lem address in
      let same : u64 next ≡ next = omega (arith, at) in
      let line : u64 (block_address address + block_size) ≡ block_address next =
        next_line address n at crosses bound in
      let low =
        read_line-held address buffer count init v s (omega (arith, at)) (omega (arith, at))
          (omega arith) (λ k h. known k (omega arith)) in
      let high =
        read_line-held next (λ i. buffer (count + i)) (n - count) init (λ k. v (count + k))
          low.after (omega (arith, at)) (omega (arith, at, next_start address n at crosses))
          (omega (arith, at))
          (λ k h.
            let moved : next + k ≡ address + (count + k) = omega arith in
            low.keeps (next + k) (omega (arith, at))
            ∙ ap (held s) moved
            ∙ known (count + k) (omega arith)) in
      record {
        bytes = λ i. if ltb i count then low.bytes i else high.bytes (i - count);
        after = high.after;
        succeeds =
            read-two address (block_address next) next buffer n init s low.after high.after
              low.bytes high.bytes line same (read_line-split address buffer n init s small crosses)
              low.succeeds high.succeeds;
        values = λ k h. joined_values count n k low.bytes high.bytes v low.values high.values h;
        keeps = λ a h. high.keeps a h ∙ low.keeps a h;
      }

  -- A read of 1 to 32 bytes that are all in use succeeds wherever it starts, with the code for
  -- defined bytes, gives what the memory holds at their addresses, and leaves what it holds.
  pub read-held :
      (address : ℕ) (buffer : ℕ → ℕ) (n : ℕ) (init : Bool) (v : ℕ → ℕ) (s : Store)
      → 0 < n
      → n ≤ 32
      → address + n ≤ 2 ^ 64
      → ((k : ℕ) → k < n → held s (address + k) ≡ some (v k))
      → ReadBack s n v (read rand address buffer init n s)
  read-held address buffer n init v s some_bytes small bound known =
      elim (<-cases 32 (offset address + n)) [
        | inl crosses ↦ read_both address buffer n init v s small crosses bound known
        | inr fits ↦
            let line = read_line-held address buffer n init v s some_bytes fits bound known in
            record {
              bytes = line.bytes;
              after = line.after;
              succeeds =
                  read-whole address buffer n init s (all_bytes_defined, (line.bytes, line.after))
                    line.succeeds;
              values = line.values;
              keeps = line.keeps;
            }
      ]
