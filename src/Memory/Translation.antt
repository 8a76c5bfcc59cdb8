-- ===== src/Memory/Translation.antt =====
-- Translation and MMU (include/mmu.h): a logical address is its own physical address.
use dimebox.Common.{ℕ, Bool, true, false, if◌then◌else◌}
use dimebox.State.{State}

pub record Translation : Type 0 where
  pub la : ℕ
  pub pa : ℕ
  pub asid : ℕ
  pub privileged : Bool
  pub ns : Bool
  pub is_data : Bool
  pub aligned : Bool
  pub size : ℕ
  pub is_write : Bool
  pub big_endian : Bool

-- How many bytes lie on a second page: none.
unfoldable pub page_crossed : ℕ → Translation → ℕ
page_crossed byte_count trans = 0

unfoldable pub shareable : Translation → Bool
shareable trans = true

unfoldable pub cacheable : Translation → Bool
cacheable trans = true

-- The MMU of a core.
unfoldable pub big_endian : State → Bool
big_endian cpu = false

unfoldable pub enabled : State → Bool
enabled cpu = false

unfoldable pub mmu_cacheable : Bool → State → Bool
mmu_cacheable is_data cpu = true

unfoldable pub la2pa : ℕ → Bool → Bool → Bool → Bool → ℕ → Bool → State → Translation
unfolding big_endian
la2pa la ns privileged is_data aligned size is_write cpu = record {
  la = la;
  pa = la;
  asid = cpu.asid;
  privileged = privileged;
  ns = ns;
  is_data = is_data;
  aligned = aligned;
  size = size;
  is_write = is_write;
  big_endian = if is_data then big_endian cpu else false;
}
