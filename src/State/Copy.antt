-- ===== src/State/Copy.antt =====
-- RiscvState::Update (src/riscv_core_state.C): a state takes over the registers of another.
use dimebox.Common.{ℕ, ◌!=◌, if◌then◌else◌, ◌|>◌}
use dimebox.State.{RiscvState, mstatus, set_mstatus, mstatush, set_mstatush, set_misa}

-- State::Update, which leaves the local monitor alone.
unfoldable pub update_base : RiscvState → RiscvState → RiscvState
update_base src dst = record dst {
  base = record dst.base {
    id = src.id;
    asid = src.asid;
    is_secure = src.is_secure;
    clock = src.clock;
    end_test = src.end_test;
    pc = src.pc;
    instr_count = src.instr_count;
    timer = src.timer;
  };
  machine_state = src.machine_state;
}

abbrev differs_then : ℕ → ℕ → (RiscvState → RiscvState) → RiscvState → RiscvState
differs_then old new set s = if old != new then set s else s

-- `if (X() != rhs->X()) SetX(rhs->X())`; for a register that is set as it is given the outcome
-- is the given value.
abbrev take : ℕ → ℕ → ℕ
take old new = if old != new then new else old

unfoldable pub update_plain : RiscvState → RiscvState → RiscvState
update_plain src dst = record dst {
  ustatus = take dst.ustatus src.ustatus;
  fflags = take dst.fflags src.fflags;
  frm = take dst.frm src.frm;
  fcsr = take dst.fcsr src.fcsr;
  satp = take dst.satp src.satp;
  medeleg = take dst.medeleg src.medeleg;
  mideleg = take dst.mideleg src.mideleg;
  mie = take dst.mie src.mie;
  mtvec = take dst.mtvec src.mtvec;
  mcounteren = take dst.mcounteren src.mcounteren;
  mscratch = take dst.mscratch src.mscratch;
  mepc = take dst.mepc src.mepc;
  mcause = take dst.mcause src.mcause;
  mtval = take dst.mtval src.mtval;
  mip = take dst.mip src.mip;
  mtinst = take dst.mtinst src.mtinst;
  pmpcfg0 = take dst.pmpcfg0 src.pmpcfg0;
  pmpaddr0 = take dst.pmpaddr0 src.pmpaddr0;
  mcycle = take dst.mcycle src.mcycle;
  mtinstret = take dst.mtinstret src.mtinstret;
  mcycleh = take dst.mcycleh src.mcycleh;
  mtinstreth = take dst.mtinstreth src.mtinstreth;
  x = λ i. take (dst.x i) (src.x i);
}

-- The three registers whose setters change what they are given.
unfoldable pub update_legal : RiscvState → RiscvState → RiscvState
update_legal src dst =
    dst
    |> (λ t. differs_then (mstatus t) (mstatus src) (set_mstatus (mstatus src)) t)
    |> (λ t. differs_then t.misa src.misa (set_misa src.misa) t)
    |> (λ t. differs_then (mstatush t) (mstatush src) (set_mstatush (mstatush src)) t)

unfoldable pub update : RiscvState → RiscvState → RiscvState
unfolding update_base update_plain update_legal
update src dst = dst |> update_base src |> update_plain src |> update_legal src
