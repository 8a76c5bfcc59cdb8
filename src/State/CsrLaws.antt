-- ===== src/State/CsrLaws.antt =====
-- RiscvState::ValidateCSRAccess, CSR and SetCSR against the numbering of the registers.
use dimebox.Common.{
  ℕ, Bool, true, false, not, ◌&&◌, some, ◌/◌, ◌%◌, ◌<◌, ◌≡◌, ◌≢◌, ◌==◌, leb, arith, if◌then◌else◌,
  and_ones,
}
use dimebox.Exceptions.{illegal_instruction_privileged_csr}
use dimebox.State.{RiscvState}
use dimebox.Outcome.{done, thrown}
use dimebox.State.Csr.{validate_csr_access, group_access, read_csr, write_csr, csr, set_csr}

-- Bits 9 and 8 of a CSR's number are the lowest level that may access it; bits 11 and 10 are both
-- set if it is read-only.
abbrev pub is_allowed : ℕ → ℕ → Bool → Bool
is_allowed n level for_write = leb (n / 256 % 4) level && not (for_write && (n / 1024 % 4 == 3))

group_access_lem :
    (g level : ℕ) (w : Bool)
    → g < 16
    → level < 4
    → group_access g level w ≡ (leb (g % 4) level && not (w && (g / 4 == 3)))
unfolding group_access
group_access_lem g level w h k = ground arith

-- The switch on the sixteen groups of registers is the rule of the numbering, for every register
-- number, level and direction of access.
pub validate_csr_access_lem :
    (n level : ℕ) (w : Bool)
    → n < 4096
    → level < 4
    → validate_csr_access n level w
      ≡ (if is_allowed n level w then done tt else thrown illegal_instruction_privileged_csr)
unfolding validate_csr_access
validate_csr_access_lem n level w h k =
    ground (arith, and_ones 4 (n / 256), group_access_lem (n / 256 % 16) level w)

-- The two switches agree on where a register is kept.
read_csr-write_csr :
    (n v : ℕ) (s t : RiscvState)
    → write_csr n v s ≡ some t
    → n ≢ 0x300
    → n ≢ 0x301
    → n ≢ 0x310
    → read_csr n t ≡ some v
unfolding write_csr read_csr
read_csr-write_csr n v s t h a b c = ground arith

-- An access for writing that is let through may read as well.
write_validated :
    (n level : ℕ)
    → validate_csr_access n level true ≡ done tt
    → validate_csr_access n level false ≡ done tt
unfolding validate_csr_access group_access
write_validated n level h = ground arith

set_csr_inversion :
    (n level v : ℕ) (s t : RiscvState)
    → set_csr n level v s ≡ done t
    → (validate_csr_access n level true ≡ done tt) × (write_csr n v s ≡ some t)
unfolding set_csr
set_csr_inversion n level v s t h = ground arith

-- A write that succeeds is read back as it was given, at any privilege level, but for MSTATUS, MISA
-- and MSTATUSH, whose setters change some bits.
pub csr-set_csr :
    (n level v : ℕ) (s t : RiscvState)
    → set_csr n level v s ≡ done t
    → n ≢ 0x300
    → n ≢ 0x301
    → n ≢ 0x310
    → csr n level t ≡ done v
unfolding csr
csr-set_csr n level v s t h a b c =
    let (valid, written) = set_csr_inversion n level v s t h in
    rw (write_validated n level valid) (rw (read_csr-write_csr n v s t written a b c))
