-- ===== src/Memory/FileLaws.antt =====
-- The blocks that are written to a file (src/memory.C).
use dimebox.Common.{
  ℕ, Bool, true, not, ◌≡◌, refl, arith, ◌&&◌, ◌||◌, ◌==◌, bit_and, List, [], ◌∷◌, ◌++◌, Bool-cases,
  inl, inr,
}
use dimebox.Memory.Files.{contains, file_blocks, set_file_block_addresses}

abbrev pub masked : ℕ → List ℕ → List ℕ
masked address_mask [] = []
masked address_mask (a ∷ blocks) = bit_and a address_mask ∷ masked address_mask blocks

abbrev pub no_duplicates : List ℕ → Bool
no_duplicates [] = true
no_duplicates (a ∷ blocks) = not (contains a blocks) && no_duplicates blocks

contains-snoc :
    (a b : ℕ) (blocks : List ℕ) → contains a (blocks ++ b ∷ []) ≡ (contains a blocks || (a == b))
unfolding contains
contains-snoc a b [] = ground arith
contains-snoc a b (c ∷ blocks) = ground (arith, contains-snoc a b blocks)

no_duplicates-snoc :
    (b : ℕ) (blocks : List ℕ)
    → no_duplicates (blocks ++ b ∷ []) ≡ (no_duplicates blocks && not (contains b blocks))
unfolding contains
no_duplicates-snoc b [] = refl
no_duplicates-snoc b (c ∷ blocks) =
    ground (arith, no_duplicates-snoc b blocks, contains-snoc c b blocks)

added :
    (b : ℕ) (all blocks : List ℕ)
    → ((a : ℕ) → contains a all ≡ contains a blocks)
    → ((a : ℕ) → contains a (b ∷ all) ≡ contains a (blocks ++ b ∷ []))
unfolding contains
added b all blocks same a = ground (arith, same a, contains-snoc a b blocks)

file_blocks-contains :
    (mask a : ℕ) (tests all blocks : List ℕ)
    → ((b : ℕ) → contains b all ≡ contains b blocks)
    → contains a (file_blocks mask tests all blocks)
      ≡ (contains a blocks || contains a (masked mask tests))
unfolding file_blocks contains
file_blocks-contains mask a [] all blocks same = ground arith
file_blocks-contains mask a (t ∷ tests) all blocks same =
    let b = bit_and t mask in
    let known = file_blocks-contains mask a tests all blocks same in
    let fresh =
      file_blocks-contains mask a tests (b ∷ all) (blocks ++ b ∷ []) (added b all blocks same) in
    ground (arith, same a, same b, known, fresh, contains-snoc a b blocks)

file_blocks-no_duplicates :
    (mask : ℕ) (tests all blocks : List ℕ)
    → ((b : ℕ) → contains b all ≡ contains b blocks)
    → no_duplicates blocks ≡ true
    → no_duplicates (file_blocks mask tests all blocks) ≡ true
unfolding file_blocks contains
file_blocks-no_duplicates mask [] all blocks same distinct = distinct
file_blocks-no_duplicates mask (t ∷ tests) all blocks same distinct =
    let b = bit_and t mask in
    elim (Bool-cases (contains b all)) [
      | inl e ↦ rw e (file_blocks-no_duplicates mask tests all blocks same distinct)
      | inr e ↦ rw e (
          file_blocks-no_duplicates mask tests (b ∷ all) (blocks ++ b ∷ [])
            (added b all blocks same) (ground (arith, same b, no_duplicates-snoc b blocks)))
    ]

-- The blocks of a file are those of the test with the mask applied, each of them once, whatever the
-- order and however often the test names them.
pub set_file_block_addresses-masked :
    (mask : ℕ) (tests : List ℕ)
    → ((a : ℕ)
        → contains a (set_file_block_addresses [] tests mask) ≡ contains a (masked mask tests))
      × (no_duplicates (set_file_block_addresses [] tests mask) ≡ true)
unfolding set_file_block_addresses contains
set_file_block_addresses-masked mask tests = (
  λ a. file_blocks-contains mask a tests [] [] (λ b. refl),
  file_blocks-no_duplicates mask tests [] [] (λ b. refl) refl,
)
