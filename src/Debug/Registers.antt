-- ===== src/Debug/Registers.antt =====
-- ReadGPRegisters, ReadRegister and WriteRegister (src/debug_server.C), with the registers as
-- RiscvDebugServer numbers them (include/riscv_debug_server.h).
use dimebox.Common.{
  ℕ, zero, suc, Bool, true, false, ◌+◌, ltb, ◌==◌, if◌then◌else◌, Option, none, some, [], ◌++◌,
}
use dimebox.State.{RiscvState, gp, set_gp, set_pc}
use dimebox.Rsp.Text.{Text, codes, drop, find}
use dimebox.Rsp.Scan
use dimebox.Rsp.Scan.{scan_unsigned}
use dimebox.Rsp.Command.{Reply, response, undefined}
use dimebox.Debug.Session.{Session}
use dimebox.Debug.Values.{le4, decoded_le4}

pub data RegType : Type 0 where
  gpreg spreg qreg pcreg cpsrreg fpsrreg fpcrreg badreg : RegType

unfoldable pub reg_type : ℕ → RegType
reg_type rindex =
    if ltb rindex 31
    then RegType.gpreg
    else if rindex == 31
    then RegType.spreg
    else if rindex == 32
    then RegType.pcreg
    else if rindex == 33
    then RegType.cpsrreg
    else if ltb rindex 66
    then RegType.qreg
    else if rindex == 66
    then RegType.fpsrreg
    else if rindex == 67
    then RegType.fpcrreg
    else RegType.badreg

unfoldable pub encode_register_value : ℕ → Text
unfolding le4
encode_register_value rval = le4 rval

-- The loop of ReadGPRegisters, from register `i` on.
unfoldable read_registers_loop : ℕ → ℕ → RiscvState → Text
unfolding encode_register_value gp
read_registers_loop zero i cpu = []
read_registers_loop (suc n) i cpu =
    encode_register_value (gp i cpu) ++ read_registers_loop n (i + 1) cpu

abbrev is_writable : RegType → Bool
is_writable RegType.gpreg = true
is_writable RegType.spreg = true
is_writable RegType.pcreg = true
is_writable _ = false

module _ {M : Type 0} where
  unfoldable pub read_gp_registers : Session M → Reply
  unfolding read_registers_loop encode_register_value gp
  read_gp_registers s = response (
      read_registers_loop 30 1 s.cpu
      ++ (encode_register_value (gp 2 s.cpu) ++ encode_register_value s.pc))

  unfoldable pub register_value : RegType → ℕ → Session M → Text
  unfolding encode_register_value gp
  register_value RegType.gpreg rindex s = encode_register_value (gp rindex s.cpu)
  register_value RegType.spreg rindex s = encode_register_value (gp 2 s.cpu)
  register_value RegType.pcreg rindex s = encode_register_value s.pc
  register_value _ rindex s = codes "E2"

  unfoldable pub read_register : Text → Session M → Reply
  unfolding scan_unsigned reg_type register_value
  read_register pdata s = elim (scan_unsigned 32 (drop 1 pdata)) [
    | Scan.matched rindex _ ↦ response (register_value (reg_type rindex) rindex s)
    | Scan.unmatched ↦ response (codes "E1")
    | Scan.undefined ↦ undefined
  ]

  unfoldable pub set_register : RegType → ℕ → ℕ → Session M → Reply × Session M
  unfolding set_gp set_pc
  set_register RegType.gpreg rindex rval s =
      (response (codes "OK"), record s { cpu = set_gp rindex rval s.cpu })
  set_register RegType.spreg rindex rval s =
      (response (codes "OK"), record s { cpu = set_gp 2 rval s.cpu })
  set_register RegType.pcreg rindex rval s =
      (response (codes "OK"), record s { cpu = set_pc rval s.cpu })
  set_register _ rindex rval s = (response (codes "E2"), s)

  -- A register of the three types is set to the value, if that can be scanned.
  unfoldable pub set_decoded : RegType → ℕ → Option (Bool × ℕ) → Session M → Reply × Session M
  unfolding set_register
  set_decoded type rindex none s =
      if is_writable type then (undefined, s) else (response (codes "E2"), s)
  set_decoded type rindex (some (true, rval)) s = set_register type rindex rval s
  set_decoded type rindex (some (false, rval)) s = (response (codes "E2"), s)

  unfoldable pub write_register : Text → Session M → Reply × Session M
  unfolding scan_unsigned reg_type find decoded_le4 set_decoded
  write_register pdata s = elim (scan_unsigned 32 (drop 1 pdata)) [
    | Scan.matched rindex _ ↦ elim (find pdata (codes "=")) [
      | none ↦ (response (codes "E 1"), s)
      | some value ↦ set_decoded (reg_type rindex) rindex (decoded_le4 (drop 1 value)) s
    ]
    | Scan.unmatched ↦ (response (codes "E1"), s)
    | Scan.undefined ↦ (undefined, s)
  ]
