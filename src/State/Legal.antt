-- ===== src/State/Legal.antt =====
-- The legal words of MSTATUS, and its setter (include/riscv_core_state.h).
use dimebox.Common.{
  ℕ, false, ◌≡◌, bit_and, refl, arith, IsWithin, and-IsWithin, or-IsWithin, and-IsWithin_right,
  clear-IsWithin, clear_within, not64,
}
use dimebox.State.{RiscvState, mstatus, set_mstatus, legal_mstatus, mstatus_writable}
use dimebox.State.Fields.{
  is_reserved_mpp, masked, kept, legal_mstatus_lem, masked-mpp, legal_mstatus_fields,
  mstatus_fields,
}

-- No bit outside the writable ones, and an MPP of 0 or 3.
pub record IsLegal (w : ℕ) : Type 0 where
  pub within : IsWithin w mstatus_writable
  pub not_reserved : is_reserved_mpp w ≡ false

masked-IsWithin : (v : ℕ) → IsWithin (masked v) mstatus_writable
unfolding masked
masked-IsWithin v = clear-IsWithin v mstatus_writable

kept-IsWithin : (old r : ℕ) → IsWithin r mstatus_writable → IsWithin (kept old r) mstatus_writable
unfolding kept
kept-IsWithin old r h =
    or-IsWithin (bit_and r (not64 0x1800)) (bit_and old 0x1800) mstatus_writable
      (and-IsWithin r (not64 0x1800) mstatus_writable h)
      (and-IsWithin_right old 0x1800 mstatus_writable refl)

-- Whatever is written to MSTATUS, the register holds a legal word afterwards, if the old MPP was
-- one of the two supported values.
set_mstatus-IsLegal :
    (v : ℕ) (s : RiscvState)
    → is_reserved_mpp s.mstatus_reg ≡ false
    → IsLegal (set_mstatus v s).mstatus_reg
unfolding set_mstatus
set_mstatus-IsLegal v s h =
    let fields = legal_mstatus_fields (mstatus s) v in
    let old = mstatus_fields s in
    record {
      within = rw legal_mstatus_lem (
          ground
            (arith, masked-IsWithin v, kept-IsWithin (mstatus s) (masked v) (masked-IsWithin v)));
      not_reserved = ground (arith, fields.2, old.2);
    }

masked_within : (w : ℕ) → IsWithin w mstatus_writable → masked w ≡ w
unfolding masked
masked_within w h = clear_within w mstatus_writable h

-- A legal word is stored unchanged.
pub legal_mstatus_legal : (old w : ℕ) → IsLegal w → legal_mstatus old w ≡ w
legal_mstatus_legal old w h =
    rw legal_mstatus_lem (ground (arith, masked-mpp w, masked_within w h.within))

-- What is read of a legal word is legal.
pub mstatus-IsLegal : (s : RiscvState) → IsLegal s.mstatus_reg → IsLegal (mstatus s)
mstatus-IsLegal s h = record {
  within = unfold mstatus in and-IsWithin s.mstatus_reg 0x807fffff mstatus_writable h.within;
  not_reserved = ground (arith, mstatus_fields s, h.not_reserved);
}
