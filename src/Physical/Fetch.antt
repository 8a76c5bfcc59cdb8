-- ===== src/Physical/Fetch.antt =====
-- Read of a block whose bytes are all in use.
use dimebox.Common.{
  ℕ, zero, suc, Bool, true, false, ◌&&◌, ◌+◌, ◌<◌, ◌≤◌, ◌≡◌, refl, ap, arith, ◌∙◌, ◌==◌,
  if◌then◌else◌, some, Bool-cases, eq_of_==, inl, inr,
}
use dimebox.Physical.Block.{
  Drawn, Reading, BlockOutcome, returned, mem_error, byte_is_free, set_at, byte_count, read_next,
  read_loop, offset, read, read_code, all_bytes_defined,
}
use dimebox.Physical.Bytes.{contents}
use dimebox.Physical.Access.{
  contents-held, byte_count-held, ready, ready-contents, validate_access-valid,
}

-- A byte in use is read, and nothing else is changed.
read_next-used :
    (i index : ℕ) (init : Bool) (r : Reading)
    → byte_is_free index r.source ≡ false
    → read_next i index init r ≡ record r { bytes = set_at i (r.source.mptr index) r.bytes }
unfolding read_next byte_is_free
read_next-used i index init r used = rw used refl

-- `r` after the bytes from `i` on have been read.
pub record Fetched (n i at : ℕ) (r t : Reading) : Type 0 where
  pub same_source : t.source ≡ r.source
  pub same_count : t.undef_count ≡ r.undef_count
  pub fetched : (k : ℕ) → i ≤ k → k < i + n → t.bytes k ≡ r.source.mptr (at + k)
  pub earlier : (k : ℕ) → k < i → t.bytes k ≡ r.bytes k

set_at-other : (i k v : ℕ) (bytes : ℕ → ℕ) → k < i → set_at i v bytes k ≡ bytes k
set_at-other i k v bytes h = let apart : (k == i) ≡ false = ground arith in rw apart refl

set_at-same :
    (i k at : ℕ) (mptr bytes : ℕ → ℕ) → i ≡ k → set_at i (mptr (at + i)) bytes k ≡ mptr (at + k)
set_at-same i k at mptr bytes h =
    let same : (k == i) ≡ true = ground arith in rw same (ap (λ (t : ℕ). mptr (at + t)) h)

read_loop-Fetched :
    (n i at : ℕ) (init : Bool) (r : Reading)
    → ((k : ℕ) → i ≤ k → k < i + n → byte_is_free (at + k) r.source ≡ false)
    → Fetched n i at r (read_loop n i at init r)
unfolding read_loop
read_loop-Fetched zero i at init r used = record {
  same_source = refl;
  same_count = refl;
  fetched = λ k low high. omega arith;
  earlier = λ k h. refl;
}
read_loop-Fetched (suc n) i at init r used =
    let next : Reading = record r { bytes = set_at i (r.source.mptr (at + i)) r.bytes } in
    let step = read_next-used i (at + i) init r (used i (omega arith) (omega arith)) in
    let rest =
      read_loop-Fetched n (i + 1) at init next (λ k low high. used k (omega arith) (omega arith)) in
    rw step (record {
      same_source = rest.same_source;
      same_count = rest.same_count;
      fetched = λ k low high. elim (Bool-cases (i == k)) [
        | inl same ↦
            rest.earlier k (omega (arith, eq_of_== i k same))
            ∙ set_at-same i k at r.source.mptr r.bytes (eq_of_== i k same)
        | inr other ↦ rest.fetched k (ground arith) (omega arith)
      ];
      earlier = λ k h.
          rest.earlier k (omega arith)
          ∙ set_at-other i k (r.source.mptr (at + i)) r.bytes (omega arith);
    })

code_defined : (n : ℕ) → 0 < n → read_code 0 n ≡ all_bytes_defined
unfolding read_code
code_defined n h = ground arith

module _ (rand : ℕ → ℕ) where
  fetch : ℕ → (ℕ → ℕ) → ℕ → Bool → Drawn → Reading
  fetch at buffer n init d =
      read_loop n 0 at init
        (record { source = (ready rand d).block; bytes = buffer; undef_count = 0 })

  all_used :
      (at n : ℕ) (v : ℕ → ℕ) (d : Drawn) (k : ℕ)
      → at + n ≤ 32
      → ((k : ℕ) → k < n → contents d.block (at + k) ≡ some (v k))
      → k < n
      → contents (ready rand d).block (at + k) ≡ some (v k)
  all_used at n v d k fits held h = ready-contents rand d (at + k) (omega arith) ∙ held k h

  first_held :
      (at n : ℕ) (v : ℕ → ℕ) (d : Drawn)
      → at + n ≤ 32
      → ((k : ℕ) → k < n → contents d.block (at + k) ≡ some (v k))
      → 0 < n
      → contents (ready rand d).block at ≡ some (v 0)
  first_held at n v d fits held h =
      let start : at ≡ at + 0 = omega arith in
      ap (contents (ready rand d).block) start ∙ all_used at n v d 0 fits held h

  fetch-Fetched :
      (at : ℕ) (buffer : ℕ → ℕ) (n : ℕ) (init : Bool) (v : ℕ → ℕ) (d : Drawn)
      → at + n ≤ 32
      → ((k : ℕ) → k < n → contents d.block (at + k) ≡ some (v k))
      → Fetched n 0 at
          (record { source = (ready rand d).block; bytes = buffer; undef_count = 0 })
          (fetch at buffer n init d)
  unfolding fetch
  fetch-Fetched at buffer n init v d fits held =
      read_loop-Fetched n 0 at init
        (record { source = (ready rand d).block; bytes = buffer; undef_count = 0 })
        (λ k low high.
          (contents-held (ready rand d).block (at + k) (v k)
            (all_used at n v d k fits held (omega arith))).0)

  finish_read : ℕ → ℕ → Reading → Bool → Drawn → BlockOutcome (ℕ × ((ℕ → ℕ) × Drawn))
  finish_read used n r init d =
      if (used == 0) && init
      then mem_error
      else returned
          (read_code r.undef_count n, (r.bytes, record (ready rand d) { block = r.source }))

  read-finish :
      (address : ℕ) (buffer : ℕ → ℕ) (n : ℕ) (init : Bool) (d : Drawn)
      → 0 < n
      → offset address + n ≤ 32
      → read rand address buffer n init d ≡ (
          let r = fetch (offset address) buffer n init d in
          finish_read (byte_count r.source) n r init d)
  unfolding read ready fetch finish_read
  read-finish address buffer n init d some_bytes fits =
      validate_access-valid (offset address) n _ some_bytes fits

  finish_read-used :
      (used n : ℕ) (r : Reading) (init : Bool) (d : Drawn)
      → (used == 0) ≡ false
      → r.undef_count ≡ 0
      → 0 < n
      → finish_read used n r init d
        ≡ returned (all_bytes_defined, (r.bytes, record (ready rand d) { block = r.source }))
  unfolding finish_read
  finish_read-used used n r init d nonempty none_free some_bytes =
      ap
        (λ t.
          if t && init
          then mem_error
          else returned
              (read_code r.undef_count n, (r.bytes, record (ready rand d) { block = r.source })))
        nonempty
      ∙ ap (λ (t : ℕ). returned (t, (r.bytes, record (ready rand d) { block = r.source })))
          (ap (λ (t : ℕ). read_code t n) none_free ∙ code_defined n some_bytes)

  -- A read inside of a block, of bytes that it holds, succeeds with the code for defined bytes,
  -- gives these bytes, and leaves what the block holds.
  pub read_lem :
      (address : ℕ) (buffer : ℕ → ℕ) (n : ℕ) (init : Bool) (v : ℕ → ℕ) (d : Drawn)
      → 0 < n
      → offset address + n ≤ 32
      → ((k : ℕ) → k < n → contents d.block (offset address + k) ≡ some (v k))
      → (bytes : ℕ → ℕ) × (e : Drawn) × (read rand address buffer n init d
          ≡ returned (all_bytes_defined, (bytes, e)))
        × ((k : ℕ) → k < n → bytes k ≡ v k)
        × ((j : ℕ) → j < 32 → contents e.block j ≡ contents d.block j)
  read_lem address buffer n init v d some_bytes fits held =
      let at = offset address in
      let r = fetch at buffer n init d in
      let h = fetch-Fetched at buffer n init v d fits held in
      (
        r.bytes,
        record (ready rand d) { block = r.source },
        read-finish address buffer n init d some_bytes fits
            ∙ finish_read-used (byte_count r.source) n r init d
                (byte_count-held r.source at (v 0) (omega arith) (
                  ap (λ b. contents b at) h.same_source ∙ first_held at n v d fits held some_bytes))
                h.same_count some_bytes,
        λ k less.
            h.fetched k (omega arith) (omega arith)
            ∙ (contents-held (ready rand d).block (at + k) (v k)
                (all_used at n v d k fits held less)).1,
        λ j less. ap (λ b. contents b j) h.same_source ∙ ready-contents rand d j (omega arith),
      )
