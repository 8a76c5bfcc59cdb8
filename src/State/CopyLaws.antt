-- ===== src/State/CopyLaws.antt =====
-- RiscvState::Update: what a core takes over from the state that an instruction ran on.
use dimebox.Common.{
  ℕ, Bool, true, false, ◌⊎◌, ◌≡◌, bit_and, bit_or, ◌!=◌, refl, arith, fun_ext, if◌then◌else◌,
  IsWithin, not64, inl, inr, Bool-cases, and_split, and-zero, zero-and, or-add-and, ◌/◌, ◌^◌, ◌%◌,
  ◌*◌, and_ones, and_mask_twice,
}
use dimebox.State.{
  RiscvState, mstatus, set_mstatus, mstatush, set_mstatush, set_misa, legal_mstatus,
  defined_misa_value,
}
use dimebox.State.Legal.{IsLegal, mstatus-IsLegal, legal_mstatus_legal}
use dimebox.State.Copy.{update, update_base, update_plain}

-- A state that a core can be in: what the setters leave in the three registers with fixed bits.
pub record IsStored (s : RiscvState) : Type 0 where
  pub status : IsLegal s.mstatus_reg
  pub status_h : mstatush s ≡ 0
  pub extensions : IsWithin s.misa defined_misa_value
  pub aligned : (bit_and s.misa 4 ≡ 4) ⊎ (bit_and s.pc 3 ≡ 0)

-- All that an instruction or a debugger can read of the registers.
pub record SameRegisters (a b : RiscvState) : Type 0 where
  pub same_pc : a.pc ≡ b.pc
  pub same_x : a.x ≡ b.x
  pub same_machine_state : a.machine_state ≡ b.machine_state
  pub same_id : a.id ≡ b.id
  pub same_clock : a.clock ≡ b.clock
  pub same_end_test : a.end_test ≡ b.end_test
  pub same_instr_count : a.instr_count ≡ b.instr_count
  pub same_timer : a.timer ≡ b.timer
  pub same_mstatus : mstatus a ≡ mstatus b
  pub same_mstatush : mstatush a ≡ mstatush b
  pub same_misa : a.misa ≡ b.misa
  pub same_ustatus : a.ustatus ≡ b.ustatus
  pub same_fflags : a.fflags ≡ b.fflags
  pub same_frm : a.frm ≡ b.frm
  pub same_fcsr : a.fcsr ≡ b.fcsr
  pub same_satp : a.satp ≡ b.satp
  pub same_medeleg : a.medeleg ≡ b.medeleg
  pub same_mideleg : a.mideleg ≡ b.mideleg
  pub same_mie : a.mie ≡ b.mie
  pub same_mtvec : a.mtvec ≡ b.mtvec
  pub same_mcounteren : a.mcounteren ≡ b.mcounteren
  pub same_mscratch : a.mscratch ≡ b.mscratch
  pub same_mepc : a.mepc ≡ b.mepc
  pub same_mcause : a.mcause ≡ b.mcause
  pub same_mtval : a.mtval ≡ b.mtval
  pub same_mip : a.mip ≡ b.mip
  pub same_mtinst : a.mtinst ≡ b.mtinst
  pub same_pmpcfg0 : a.pmpcfg0 ≡ b.pmpcfg0
  pub same_pmpaddr0 : a.pmpaddr0 ≡ b.pmpaddr0
  pub same_mcycle : a.mcycle ≡ b.mcycle
  pub same_mcycleh : a.mcycleh ≡ b.mcycleh
  pub same_mtinstret : a.mtinstret ≡ b.mtinstret
  pub same_mtinstreth : a.mtinstreth ≡ b.mtinstreth

take_lem : (old new : ℕ) → (if old != new then new else old) ≡ new
take_lem old new = ground arith

-- A conditional call of a setter, as a change of its one register.
if-set_mstatus :
    (b : Bool) (v : ℕ) (s : RiscvState)
    → (if b then set_mstatus v s else s)
      ≡ record s { mstatus_reg = if b then legal_mstatus (mstatus s) v else s.mstatus_reg }
unfolding set_mstatus
if-set_mstatus true v s = refl
if-set_mstatus false v s = refl

if-set_misa :
    (b : Bool) (v : ℕ) (s : RiscvState)
    → (if b then set_misa v s else s)
      ≡ record s { misa = if b then (set_misa v s).misa else s.misa }
unfolding set_misa
if-set_misa true v s = refl
if-set_misa false v s = refl

if-set_mstatush :
    (b : Bool) (v : ℕ) (s : RiscvState)
    → (if b then set_mstatush v s else s)
      ≡ record s { mstatush_reg = if b then (set_mstatush v s).mstatush_reg else s.mstatush_reg }
unfolding set_mstatush
if-set_mstatush true v s = refl
if-set_mstatush false v s = refl

-- The read mask of MSTATUS, twice.
mstatus_twice : (w : ℕ) → bit_and (bit_and w 0x807fffff) 0x807fffff ≡ bit_and w 0x807fffff
mstatus_twice w = and_mask_twice w 0x807fffff

-- The register MSTATUS, MISA and MSTATUSH after the conditional write.
taken_status :
    (src dst : RiscvState)
    → IsLegal src.mstatus_reg
    → bit_and
        (if mstatus dst != mstatus src
          then legal_mstatus (mstatus dst) (mstatus src)
          else dst.mstatus_reg)
        0x807fffff
      ≡ mstatus src
taken_status src dst h = elim (Bool-cases (mstatus dst != mstatus src)) [
  | inl e ↦ rw e (
      rw (legal_mstatus_legal (mstatus dst) (mstatus src) (mstatus-IsLegal src h))
        (unfold mstatus in mstatus_twice src.mstatus_reg))
  | inr e ↦ rw e (unfold mstatus in ground (arith, e))
]

and-four : (w : ℕ) → bit_and w 4 ≡ w / 2 ^ 2 % 2 * 4
and-four w = ground (
  arith,
  and_split 2 (w / 4) (w % 4) 1 0 (omega arith) (omega arith),
  and_ones 1 (w / 4),
  and-zero (w % 4),
)

taken_misa :
    (s : RiscvState) (v : ℕ)
    → IsWithin v defined_misa_value
    → (bit_and v 4 ≡ 4) ⊎ (bit_and s.pc 3 ≡ 0)
    → (if s.misa != v then (set_misa v s).misa else s.misa) ≡ v
unfolding set_misa
taken_misa s v h aligned = ground (arith, bit_or-four v)
  where
    bit_or-four : (w : ℕ) → bit_and w 4 ≡ 4 → bit_or w 4 ≡ w
    bit_or-four w e = omega (arith, or-add-and w 4, e)

taken_status_h :
    (s : RiscvState) (v : ℕ)
    → v ≡ 0
    → bit_and (if mstatush s != v then (set_mstatush v s).mstatush_reg else s.mstatush_reg) 0x30 ≡ v
unfolding set_mstatush mstatush
taken_status_h s v h = ground (arith, zero-and (bit_and v (not64 0x30)), zero-and 0x30)

-- Update, register by register.
merged : RiscvState → RiscvState → RiscvState
unfolding update_base update_plain
merged src dst =
    let m = update_plain src (update_base src dst) in
    let t = record m {
      mstatus_reg =
          if mstatus m != mstatus src
          then legal_mstatus (mstatus m) (mstatus src)
          else m.mstatus_reg;
    } in
    let u = record t { misa = if t.misa != src.misa then (set_misa src.misa t).misa else t.misa } in
    record u {
      mstatush_reg =
          if mstatush u != mstatush src
          then (set_mstatush (mstatush src) u).mstatush_reg
          else u.mstatush_reg;
    }

update_lem : (src dst : RiscvState) → update src dst ≡ merged src dst
unfolding update merged
update_lem src dst = rw (if-set_mstatus, if-set_misa, if-set_mstatush) refl

merged-SameRegisters : (src dst : RiscvState) → IsStored src → SameRegisters (merged src dst) src
unfolding merged mstatus mstatush set_misa set_mstatush
merged-SameRegisters src dst h = record {
  same_pc = refl;
  same_x = fun_ext (λ i. take_lem (dst.x i) (src.x i));
  same_machine_state = refl;
  same_id = refl;
  same_clock = refl;
  same_end_test = refl;
  same_instr_count = refl;
  same_timer = refl;
  same_mstatus = taken_status src dst h.status;
  same_mstatush = taken_status_h dst (mstatush src) h.status_h;
  same_misa =
      taken_misa (record dst { base = record dst.base { pc = src.pc } }) src.misa h.extensions
        h.aligned;
  same_ustatus = take_lem dst.ustatus src.ustatus;
  same_fflags = take_lem dst.fflags src.fflags;
  same_frm = take_lem dst.frm src.frm;
  same_fcsr = take_lem dst.fcsr src.fcsr;
  same_satp = take_lem dst.satp src.satp;
  same_medeleg = take_lem dst.medeleg src.medeleg;
  same_mideleg = take_lem dst.mideleg src.mideleg;
  same_mie = take_lem dst.mie src.mie;
  same_mtvec = take_lem dst.mtvec src.mtvec;
  same_mcounteren = take_lem dst.mcounteren src.mcounteren;
  same_mscratch = take_lem dst.mscratch src.mscratch;
  same_mepc = take_lem dst.mepc src.mepc;
  same_mcause = take_lem dst.mcause src.mcause;
  same_mtval = take_lem dst.mtval src.mtval;
  same_mip = take_lem dst.mip src.mip;
  same_mtinst = take_lem dst.mtinst src.mtinst;
  same_pmpcfg0 = take_lem dst.pmpcfg0 src.pmpcfg0;
  same_pmpaddr0 = take_lem dst.pmpaddr0 src.pmpaddr0;
  same_mcycle = take_lem dst.mcycle src.mcycle;
  same_mcycleh = take_lem dst.mcycleh src.mcycleh;
  same_mtinstret = take_lem dst.mtinstret src.mtinstret;
  same_mtinstreth = take_lem dst.mtinstreth src.mtinstreth;
}

-- A core that takes over a state has all of that state's registers, whatever it held before: the
-- setters that Update goes through change none of the values that a state can hold.
pub update-SameRegisters :
    (src dst : RiscvState) → IsStored src → SameRegisters (update src dst) src
update-SameRegisters src dst h = rw update_lem (merged-SameRegisters src dst h)
