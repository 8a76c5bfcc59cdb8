-- ===== src/Physical/Held.antt =====
-- Addresses, blocks and offsets: BlockAddress and Offset, and what a store holds at an address.
use dimebox.Common.{
  ℕ, Bool, true, false, ◌||◌, ◌+◌, ◌-◌, ◌*◌, ◌/◌, ◌%◌, ◌^◌, ◌<◌, ◌≤◌, ◌≡◌, refl, sym, ap, arith,
  ◌∙◌, ◌==◌, if◌then◌else◌, Option, some, bit_and, not64, and_ones, and_split, and-zero, u64,
}
use dimebox.Physical.Block.{MemBlock, Drawn, block_address, offset, block_size}
use dimebox.Physical.Bytes.{contents, in_range}
use dimebox.Physical.Store.{Store, set_block}

pub offset_lem : (address : ℕ) → offset address ≡ address % 32
unfolding offset
offset_lem address = and_ones 5 address

pub block_address_lem : (address : ℕ) → address < 2 ^ 64 → block_address address ≡ address / 32 * 32
unfolding block_address
block_address_lem address h =
    let whole : address / 32 * 2 ^ 5 + address % 32 ≡ address = omega arith in
    ap (λ (t : ℕ). bit_and t (not64 31)) (sym whole)
    ∙ and_split 5 (address / 32) (address % 32) (2 ^ 59 - 1) 0 (omega arith) (omega arith)
    ∙ omega (arith, and_ones 59 (address / 32), and-zero (address % 32))

-- The byte at an address, if it was ever used.
abbrev pub held : Store → ℕ → Option ℕ
held s a = contents (s.blocks (block_address a)) (offset a)

abbrev pub overwritten : ℕ → (ℕ → ℕ) → ℕ → Store → ℕ → Option ℕ
overwritten address buffer n s a =
    if in_range address n a then some (buffer (a - address)) else held s a

-- A range of addresses in one block is a range of offsets.
pub same_block_range :
    (address n a : ℕ)
    → address % 32 + n ≤ 32
    → a / 32 ≡ address / 32
    → in_range (address % 32) n (a % 32) ≡ in_range address n a
same_block_range address n a fits h = ground arith

pub other_block_range :
    (address n a : ℕ)
    → address % 32 + n ≤ 32
    → (a / 32 * 32 == address / 32 * 32) ≡ false
    → in_range address n a ≡ false
other_block_range address n a fits h = ground arith

choose_contents :
    (c : Bool) (x y : MemBlock) (j : ℕ)
    → contents (if c then x else y) j ≡ (if c then contents x j else contents y j)
choose_contents true x y j = refl
choose_contents false x y j = refl

pub held-set_block :
    (line : ℕ) (e : Drawn) (s : Store) (a : ℕ)
    → held (set_block line e s) a
      ≡ (if block_address a == line then contents e.block (offset a) else held s a)
unfolding set_block
held-set_block line e s a =
    choose_contents (block_address a == line) e.block (s.blocks (block_address a)) (offset a)

pub next_line :
    (address n : ℕ)
    → offset address ≡ address % 32
    → 32 < offset address + n
    → address + n ≤ 2 ^ 64
    → u64 (block_address address + block_size)
      ≡ block_address (address + (block_size - offset address))
next_line address n at crosses bound = omega (
  arith,
  at,
  block_address_lem address (omega (arith, at)),
  block_address_lem (address + (block_size - offset address)) (omega (arith, at)),
)

pub next_start :
    (address n : ℕ)
    → offset address ≡ address % 32
    → 32 < offset address + n
    → offset (address + (block_size - offset address)) ≡ 0
next_start address n at crosses =
    omega (arith, at, offset_lem (address + (block_size - offset address)))

two_ranges :
    (c r : Bool) (x y z : Option ℕ)
    → ((r ≡ true) → x ≡ y)
    → (if r then x else if c then y else z) ≡ (if c || r then y else z)
two_ranges true true x y z h = h refl
two_ranges false true x y z h = h refl
two_ranges true false x y z h = refl
two_ranges false false x y z h = refl

-- The two parts of a range.
parts :
    (address count n a : ℕ)
    → count ≤ n
    → in_range address n a ≡ (in_range address count a || in_range (address + count) (n - count) a)
parts address count n a h = ground arith

pub joined :
    (address count n : ℕ) (buffer : ℕ → ℕ) (z : Option ℕ) (a : ℕ)
    → count ≤ n
    → (if in_range (address + count) (n - count) a
        then some (buffer (count + (a - (address + count))))
        else if in_range address count a
        then some (buffer (a - address))
        else z)
      ≡ (if in_range address n a then some (buffer (a - address)) else z)
joined address count n buffer z a h =
    two_ranges (in_range address count a) (in_range (address + count) (n - count) a)
      (some (buffer (count + (a - (address + count))))) (some (buffer (a - address))) z
      (λ second. ap (λ (t : ℕ). some (buffer t)) (index second))
    ∙ ap (λ t. if t then some (buffer (a - address)) else z) (sym (parts address count n a h))
  where
    index :
        in_range (address + count) (n - count) a ≡ true
        → count + (a - (address + count)) ≡ a - address
    index second = ground arith
