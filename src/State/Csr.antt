-- ===== src/State/Csr.antt =====
-- RiscvState::ValidateCSRAccess, CSR and SetCSR (src/riscv_core_state.C).
use dimebox.Common.{
  ℕ, Bool, true, false, not, ◌&&◌, Option, none, some, bit_and, ◌==◌, ltb, leb, ◌>>>◌,
  if◌then◌else◌,
}
use dimebox.Exceptions.{illegal_instruction_privileged_csr, illegal_instruction_unknown_csr}
use dimebox.Outcome.{Outcome, done, thrown, runtime_error, ◌>>◌}
use dimebox.State.{RiscvState, mstatus, set_mstatus, mstatush, set_mstatush, set_misa}

-- The switch on the CSR's group, at a privilege level.
unfoldable pub group_access : ℕ → ℕ → Bool → Bool
group_access group level for_write =
    let machine = level == 3 in
    let hypervisor = leb 2 level in
    let supervisor = leb 1 level in
    if group == 0
    then true
    else if group == 4
    then true
    else if group == 8
    then true
    else if group == 0xc
    then not for_write
    else if group == 1
    then supervisor
    else if group == 5
    then supervisor
    else if group == 9
    then supervisor
    else if group == 0xd
    then supervisor && not for_write
    else if group == 2
    then hypervisor
    else if group == 6
    then hypervisor
    else if group == 0xa
    then hypervisor
    else if group == 0xe
    then hypervisor && not for_write
    else if group == 3
    then machine
    else if group == 7
    then machine
    else if group == 0xb
    then machine
    else if group == 0xf
    then machine && not for_write
    else false

unfoldable pub validate_csr_access : ℕ → ℕ → Bool → Outcome (Unit {0})
unfolding group_access
validate_csr_access csr level for_write =
    if ltb 0xfff csr
    then runtime_error
    else if group_access (bit_and (csr >>> 8) 0xf) level for_write
    then done tt
    else thrown illegal_instruction_privileged_csr

-- The switch of CSR; `none` is its default.
unfoldable pub read_csr : ℕ → RiscvState → Option ℕ
unfolding mstatus mstatush
read_csr csr s =
    if csr == 0x000
    then some s.ustatus
    else if csr == 0x001
    then some s.fflags
    else if csr == 0x002
    then some s.frm
    else if csr == 0x003
    then some s.fcsr
    else if csr == 0x180
    then some s.satp
    else if csr == 0x300
    then some (mstatus s)
    else if csr == 0x301
    then some s.misa
    else if csr == 0x302
    then some s.medeleg
    else if csr == 0x303
    then some s.mideleg
    else if csr == 0x304
    then some s.mie
    else if csr == 0x305
    then some s.mtvec
    else if csr == 0x306
    then some s.mcounteren
    else if csr == 0x310
    then some (mstatush s)
    else if csr == 0x340
    then some s.mscratch
    else if csr == 0x341
    then some s.mepc
    else if csr == 0x342
    then some s.mcause
    else if csr == 0x343
    then some s.mtval
    else if csr == 0x344
    then some s.mip
    else if csr == 0x34a
    then some s.mtinst
    else if csr == 0x3a0
    then some s.pmpcfg0
    else if csr == 0x3b0
    then some s.pmpaddr0
    else if csr == 0xb00
    then some s.mcycle
    else if csr == 0xb02
    then some s.mtinstret
    else if csr == 0xb80
    then some s.mcycleh
    else if csr == 0xb82
    then some s.mtinstreth
    else if csr == 0xc00
    then some (bit_and s.clock 0xffffffff)
    else if csr == 0xc01
    then some (bit_and s.timer 0xffffffff)
    else if csr == 0xc02
    then some (bit_and s.instr_count 0xffffffff)
    else if csr == 0xc80
    then some (s.clock >>> 32)
    else if csr == 0xc81
    then some (s.timer >>> 32)
    else if csr == 0xc82
    then some (bit_and s.instr_count 0xffffffff)
    else if csr == 0xf11
    then some 0
    else if csr == 0xf12
    then some 0
    else if csr == 0xf13
    then some 0
    else if csr == 0xf14
    then some s.id
    else none

-- The switch of SetCSR; `none` is its default.
unfoldable pub write_csr : ℕ → ℕ → RiscvState → Option RiscvState
unfolding set_mstatus set_mstatush set_misa
write_csr csr v s =
    if csr == 0x000
    then some (record s { ustatus = v })
    else if csr == 0x001
    then some (record s { fflags = v })
    else if csr == 0x002
    then some (record s { frm = v })
    else if csr == 0x003
    then some (record s { fcsr = v })
    else if csr == 0x180
    then some (record s { satp = v })
    else if csr == 0x300
    then some (set_mstatus v s)
    else if csr == 0x301
    then some (set_misa v s)
    else if csr == 0x302
    then some (record s { medeleg = v })
    else if csr == 0x303
    then some (record s { mideleg = v })
    else if csr == 0x304
    then some (record s { mie = v })
    else if csr == 0x305
    then some (record s { mtvec = v })
    else if csr == 0x306
    then some (record s { mcounteren = v })
    else if csr == 0x310
    then some (set_mstatush v s)
    else if csr == 0x340
    then some (record s { mscratch = v })
    else if csr == 0x341
    then some (record s { mepc = v })
    else if csr == 0x342
    then some (record s { mcause = v })
    else if csr == 0x343
    then some (record s { mtval = v })
    else if csr == 0x344
    then some (record s { mip = v })
    else if csr == 0x34a
    then some (record s { mtinst = v })
    else if csr == 0x3a0
    then some (record s { pmpcfg0 = v })
    else if csr == 0x3b0
    then some (record s { pmpaddr0 = v })
    else if csr == 0xb00
    then some (record s { mcycle = v })
    else if csr == 0xb02
    then some (record s { mtinstret = v })
    else if csr == 0xb80
    then some (record s { mcycleh = v })
    else if csr == 0xb82
    then some (record s { mtinstreth = v })
    else none

abbrev pub or_unknown : {A : Type 0} → Option A → Outcome A
or_unknown none = thrown illegal_instruction_unknown_csr
or_unknown (some a) = done a

unfoldable pub csr : ℕ → ℕ → RiscvState → Outcome ℕ
csr n level s = do validate_csr_access n level false; or_unknown (read_csr n s)

unfoldable pub set_csr : ℕ → ℕ → ℕ → RiscvState → Outcome RiscvState
set_csr n level v s = do validate_csr_access n level true; or_unknown (write_csr n v s)
