-- ===== src/State/Tests.antt =====
-- The theorems on the core state, at concrete states.
use dimebox.Common.{true, false, ◌≡◌, inl, inr, refl, arith, none, some}
use dimebox.Exceptions.{SimException, illegal_instruction_privileged_csr}
use dimebox.Outcome.{done, thrown}
use dimebox.Monitor.{open_monitor}
use dimebox.State.{
  RiscvState, mstatus, mstatush, current_privilege_level, global_interrupts_enabled,
  set_low_power_mode,
}
use dimebox.State.Csr.{validate_csr_access, csr, set_csr, group_access, write_csr}
use dimebox.State.Trap.{
  push_privilege_level, pop_privilege_level, interrupt_pending, process_exception, signal,
  enter_low_power,
}
use dimebox.State.Copy.{update}
use dimebox.State.Fields.{mie_bit}
use dimebox.State.Privilege.{privilege, pop-push_escalates}
use dimebox.State.Entry.{Entered, process_exception-Entered, process_exception_return}
use dimebox.State.Interrupts.{Interrupted, line, asleep, interrupt_pending-serviced, wfi_repeats}
use dimebox.State.CsrLaws.{validate_csr_access_lem, csr-set_csr}
use dimebox.State.CopyLaws.{SameRegisters, update-SameRegisters}

-- A core in machine mode that waits for the timer, with the handler at 0x100.
abbrev pub core : RiscvState
core = record {
  base = record {
    id = 0;
    asid = 0;
    is_secure = false;
    clock = 0;
    end_test = false;
    pc = 0x80000000;
    instr_count = 0;
    timer = 0;
    local_monitor = open_monitor;
  };
  machine_state = 3;
  x = λ i. i;
  mepc = 0;
  mtvec = 0x100;
  satp = 0;
  pmpaddr0 = 0;
  pmpcfg0 = 0;
  misa = 0x40101104;
  medeleg = 0;
  mideleg = 0;
  mie = 0x880;
  mstatus_reg = 0x1888;
  mstatush_reg = 0;
  mcounteren = 0;
  mscratch = 0;
  mcause = 0;
  mtval = 0;
  mip = 0x80;
  mtinst = 0;
  mcycle = 0;
  mcycleh = 0;
  mtinstret = 0;
  mtinstreth = 0;
  ustatus = 0;
  fflags = 0;
  frm = 0;
  fcsr = 0;
}

-- The same in user mode.
abbrev user_core : RiscvState
user_core = record core { machine_state = 0 }

pop-push_escalates_example : privilege (pop_privilege_level (push_privilege_level user_core)) ≡ 3
unfolding current_privilege_level
pop-push_escalates_example = pop-push_escalates user_core refl refl

process_exception-Entered_example :
    (t : RiscvState) × (process_exception SimException.env_call_mmode core ≡ some t)
    × Entered SimException.env_call_mmode core t
process_exception-Entered_example = process_exception-Entered SimException.env_call_mmode core refl

process_exception_return_example :
    (t r : RiscvState) × (process_exception SimException.env_call_mmode core ≡ some t)
    × (process_exception SimException.process_mret t ≡ some r)
    × (r.pc ≡ 0x80000000)
    × (privilege r ≡ privilege core)
    × (mie_bit r.mstatus_reg ≡ 1)
    × (r.x ≡ core.x)
unfolding current_privilege_level
process_exception_return_example =
    process_exception_return SimException.env_call_mmode core refl (inr refl) (inl refl) refl

interrupt_pending-serviced_example :
    (t : RiscvState) × (process_exception SimException.machine_timer_int core ≡ some t)
    × Interrupted (line SimException.machine_timer_int) core t
    × (interrupt_pending t ≡ none)
unfolding interrupt_pending global_interrupts_enabled mstatus
interrupt_pending-serviced_example =
    interrupt_pending-serviced SimException.machine_timer_int core refl

wfi_repeats_example :
    ((asleep core).mepc ≡ 0x80000004)
    × ((t r : RiscvState) × (process_exception SimException.machine_timer_int
            (signal SimException.machine_timer_int (asleep core))
          ≡ some t)
        × (process_exception SimException.process_mret t ≡ some r)
        × (r.pc ≡ 0x80000000))
unfolding interrupt_pending global_interrupts_enabled mstatus signal enter_low_power
    set_low_power_mode
wfi_repeats_example =
    wfi_repeats core SimException.machine_timer_int SimException.machine_timer_int refl refl

validate_csr_access_lem_example :
    validate_csr_access 0xf11 3 true ≡ thrown illegal_instruction_privileged_csr
validate_csr_access_lem_example = validate_csr_access_lem 0xf11 3 true (omega arith) (omega arith)

csr-set_csr_example : csr 0x305 3 (record core { mtvec = 0x200 }) ≡ done 0x200
unfolding set_csr validate_csr_access group_access write_csr
csr-set_csr_example =
    csr-set_csr 0x305 3 0x200 core (record core { mtvec = 0x200 }) refl (omega arith) (omega arith)
      (omega arith)

update-SameRegisters_example : SameRegisters (update user_core core) user_core
unfolding mstatush
update-SameRegisters_example = update-SameRegisters user_core core (record {
  status = record { within = refl; not_reserved = refl };
  status_h = refl;
  extensions = refl;
  aligned = inl refl;
})
