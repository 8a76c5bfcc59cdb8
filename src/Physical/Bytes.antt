-- ===== src/Physical/Bytes.antt =====
-- What a block holds, byte by byte, and how its operations change that.
use dimebox.Common.{
  ℕ, zero, suc, Bool, true, false, not, ◌&&◌, ◌||◌, ◌+◌, ◌-◌, ◌^◌, ◌<◌, ◌≤◌, ◌≡◌, refl, sym, ap,
  arith, ◌∙◌, ◌==◌, ltb, leb, if◌then◌else◌, Option, none, some, eq_of_==, if-elim,
}
use dimebox.Physical.Block.{
  MemBlock, Drawn, byte_is_free, write_byte, write_loop, allocate_block, allocate_init_block,
  fill_init, initial_byte, set_at, block_size,
}
use dimebox.Physical.Marks.{byte_is_free-write_byte, byte_is_free-fresh}

-- The byte at `j`, if it was ever used.
abbrev pub contents : MemBlock → ℕ → Option ℕ
contents b j = if b.mptr_allocated && not (byte_is_free j b) then some (b.mptr j) else none

-- The byte that a read finds at `j`.
abbrev pub current : MemBlock → ℕ → ℕ
current b j = if byte_is_free j b then b.mptr_init j else b.mptr j

abbrev pub in_range : ℕ → ℕ → ℕ → Bool
in_range from count j = leb from j && ltb j (from + count)

empty_range : (from j : ℕ) → in_range from 0 j ≡ false
empty_range from j = ground arith

range_step :
    (at i n j : ℕ) → in_range (at + i) (suc n) j ≡ ((j == (at + i)) || in_range (at + (i + 1)) n j)
range_step at i n j = ground arith

merge :
    (c r : Bool) (x y z : Option ℕ)
    → ((c ≡ true) → y ≡ x)
    → (if r then x else if c then y else z) ≡ (if c || r then x else z)
merge true true x y z h = refl
merge true false x y z h = h refl
merge false r x y z h = refl

-- Allocation makes nothing used.
pub contents-allocate_block :
    (b : MemBlock) (j : ℕ) → j < 64 → contents (allocate_block b) j ≡ contents b j
unfolding allocate_block
contents-allocate_block b j h =
    let fresh : MemBlock = record b { mptr_allocated = true; free_bytes = 2 ^ 64 - 1 } in
    if-elim b.mptr_allocated b fresh (λ t. contents t j ≡ contents b j) (λ _. refl)
      (λ unallocated. rw (byte_is_free-fresh j fresh h refl, unallocated) refl)

pub allocate_block-allocated : (b : MemBlock) → (allocate_block b).mptr_allocated ≡ true
unfolding allocate_block
allocate_block-allocated b =
    if-elim b.mptr_allocated b (record b { mptr_allocated = true; free_bytes = 2 ^ 64 - 1 })
      (λ t. t.mptr_allocated ≡ true) (λ h. h) (λ _. refl)

-- Allocating the initial values changes no current one.
pub record SameCurrent (b c : MemBlock) : Type 0 where
  pub same_allocated : c.mptr_allocated ≡ b.mptr_allocated
  pub same_mptr : c.mptr ≡ b.mptr
  pub same_free : c.free_bytes ≡ b.free_bytes

module _ (rand : ℕ → ℕ) where
  fill_init-SameCurrent : (n i : ℕ) (d : Drawn) → SameCurrent d.block (fill_init rand n i d).block
  unfolding fill_init
  fill_init-SameCurrent zero i d = record {
    same_allocated = refl;
    same_mptr = refl;
    same_free = refl;
  }
  fill_init-SameCurrent (suc n) i d =
      let (v, draws) = initial_byte rand d in
      let h = fill_init-SameCurrent n (i + 1) (record {
        block = record d.block { mptr_init = set_at i v d.block.mptr_init };
        draws = draws;
      }) in
      record { same_allocated = h.same_allocated; same_mptr = h.same_mptr; same_free = h.same_free }

  pub allocate_init_block-SameCurrent :
      (d : Drawn) → SameCurrent d.block (allocate_init_block rand d).block
  unfolding allocate_init_block
  allocate_init_block-SameCurrent d =
      let start : Drawn = record d { block = record d.block { init_allocated = true } } in
      if-elim d.block.init_allocated d (fill_init rand block_size 0 start)
        (λ t. SameCurrent d.block t.block)
        (λ _. record { same_allocated = refl; same_mptr = refl; same_free = refl })
        (λ _.
          let h = fill_init-SameCurrent block_size 0 start in
          record {
            same_allocated = h.same_allocated;
            same_mptr = h.same_mptr;
            same_free = h.same_free;
          })

pub SameCurrent-contents : (b c : MemBlock) (j : ℕ) → SameCurrent b c → contents c j ≡ contents b j
unfolding byte_is_free
SameCurrent-contents b c j h = rw (h.same_allocated, h.same_mptr, h.same_free) refl

write_byte-allocated :
    (i v : ℕ) (initial : Bool) (b : MemBlock)
    → (write_byte i v initial b).mptr_allocated ≡ b.mptr_allocated
unfolding write_byte
write_byte-allocated i v initial b = refl

write_byte-mptr :
    (i j v : ℕ) (initial : Bool) (b : MemBlock)
    → (write_byte i v initial b).mptr j ≡ (if j == i then v else b.mptr j)
unfolding write_byte
write_byte-mptr i j v initial b = refl

-- A byte that is written is there, and the others are as they were.
contents-write_byte :
    (i j v : ℕ) (initial : Bool) (b : MemBlock)
    → i < 64
    → j < 64
    → b.mptr_allocated ≡ true
    → contents (write_byte i v initial b) j ≡ (if j == i then some v else contents b j)
unfolding byte_is_free
contents-write_byte i j v initial b hi hj allocated =
    rw
      (
        byte_is_free-write_byte i j v initial b hi hj,
        write_byte-allocated i v initial b,
        write_byte-mptr i j v initial b,
        allocated,
      )
      (choose (j == i))
  where
    choose :
        (c : Bool)
        → (if true && not (if c then false else byte_is_free j b)
            then some (if c then v else b.mptr j)
            else none)
          ≡ (if c then some v else if true && not (byte_is_free j b) then some (b.mptr j) else none)
    choose true = refl
    choose false = refl

pub write_loop-allocated :
    (n i at : ℕ) (buffer : ℕ → ℕ) (initial : Bool) (b : MemBlock)
    → (write_loop n i at buffer initial b).mptr_allocated ≡ b.mptr_allocated
unfolding write_loop
write_loop-allocated zero i at buffer initial b = refl
write_loop-allocated (suc n) i at buffer initial b =
    write_loop-allocated n (i + 1) at buffer initial (write_byte (at + i) (buffer i) initial b)
    ∙ write_byte-allocated (at + i) (buffer i) initial b

-- The loop writes the bytes of the buffer and no other.
pub contents-write_loop :
    (n i at j : ℕ) (buffer : ℕ → ℕ) (initial : Bool) (b : MemBlock)
    → at + i + n ≤ 64
    → j < 64
    → b.mptr_allocated ≡ true
    → contents (write_loop n i at buffer initial b) j
      ≡ (if in_range (at + i) n j then some (buffer (j - at)) else contents b j)
unfolding write_loop
contents-write_loop zero i at j buffer initial b bound hj allocated =
    rw (empty_range (at + i) j) refl
contents-write_loop (suc n) i at j buffer initial b bound hj allocated =
    let next = write_byte (at + i) (buffer i) initial b in
    let later =
      contents-write_loop n (i + 1) at j buffer initial next (omega arith) hj
        (write_byte-allocated (at + i) (buffer i) initial b ∙ allocated) in
    let first = contents-write_byte (at + i) j (buffer i) initial b (omega arith) hj allocated in
    later
    ∙ ap (λ t. if in_range (at + (i + 1)) n j then some (buffer (j - at)) else t) first
    ∙ merge (j == (at + i)) (in_range (at + (i + 1)) n j) (some (buffer (j - at))) (some (buffer i))
        (contents b j) (λ same. ap (λ (t : ℕ). some (buffer t)) (index same))
    ∙ ap (λ t. if t then some (buffer (j - at)) else contents b j) (sym (range_step at i n j))
  where
    index : (j == (at + i)) ≡ true → i ≡ j - at
    index same = omega (arith, eq_of_== j (at + i) same)
