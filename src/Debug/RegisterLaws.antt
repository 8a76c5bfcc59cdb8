-- ===== src/Debug/RegisterLaws.antt =====
-- The commands `p` and `P` for the registers 0 to 30 (src/debug_server.C).
use dimebox.Common.{
  ℕ, suc, true, ap, sym, ◌≡◌, ◌<◌, refl, arith, ◌∙◌, ◌&&◌, ◌+◌, ◌*◌, ◌/◌, ◌%◌, ◌^◌, ltb, ◌==◌,
  if◌then◌else◌, some, [], ◌∷◌, ◌++◌, append-nil,
}
use dimebox.State.{RiscvState, gp, set_gp, update_reg}
use dimebox.Rsp.Text.{Text, codes, find, starts_with, hex2, hex_digit, digit_value, length}
use dimebox.Rsp.Scan.{
  Scan, matched, scan_unsigned, scan_x, scan_signed, scan_hex, scan_number, scan_digits, skip_space,
}
use dimebox.Rsp.Command.{Reply, response}
use dimebox.Debug.Session.{Session}
use dimebox.Debug.Values.{le4, decoded_le4}
use dimebox.Debug.ValueLaws.{scan_x-hex2, decoded_le4-le4}
use dimebox.Debug.Registers.{
  read_register, write_register, register_value, reg_type, RegType, encode_register_value,
  set_decoded, set_register,
}

-- The requests, as the protocol spells them.
abbrev pub read_request : ℕ → Text
read_request i = b'p' ∷ hex2 i

abbrev pub write_request : ℕ → ℕ → Text
write_request i v = b'P' ∷ (hex2 i ++ b'=' ∷ le4 v)

scan_number-named :
    (width d e : ℕ) (t : Text)
    → d < 16
    → e < 16
    → scan_x 32 (suc (suc (suc width))) (hex_digit d ∷ hex_digit e ∷ b'=' ∷ t)
      ≡ matched (d * 16 + e) (b'=' ∷ t)
unfolding scan_x skip_space scan_signed scan_hex scan_number scan_digits hex_digit digit_value
scan_number-named width d e t hd he = ground arith

scan_unsigned-named :
    (i : ℕ) (t : Text) → i < 256 → scan_unsigned 32 (hex2 i ++ b'=' ∷ t) ≡ matched i (b'=' ∷ t)
unfolding scan_unsigned hex2
scan_unsigned-named i t h =
    scan_number-named (length t) (i / 16) (i % 16) t (omega arith) (omega arith)
    ∙ ap (λ (v : ℕ). matched v (b'=' ∷ t)) (omega arith)

find-value :
    (i : ℕ) (t : Text) → i < 256 → find (b'P' ∷ (hex2 i ++ b'=' ∷ t)) (codes "=") ≡ some (b'=' ∷ t)
unfolding find starts_with hex2 hex_digit
find-value i t h = ground arith

reg_type-gpreg : (i : ℕ) → i < 31 → reg_type i ≡ RegType.gpreg
unfolding reg_type
reg_type-gpreg i h = ground arith

gp-update :
    (i j v : ℕ) (cpu : RiscvState)
    → gp j (set_gp i v cpu) ≡ (if (j == i) && ltb 0 i then v else gp j cpu)
unfolding gp set_gp update_reg
gp-update i j v cpu = ground arith

module _ {M : Type 0} where
  read_register-gpreg :
      (i : ℕ) (s : Session M)
      → i < 31
      → read_register (read_request i) s ≡ response (le4 (gp i s.cpu))
  unfolding read_register scan_unsigned hex2 register_value encode_register_value
  read_register-gpreg i s h =
      ap
        (λ (r : Scan ℕ). elim r [
          | matched rindex _ ↦ response (register_value (reg_type rindex) rindex s)
          | Scan.unmatched ↦ response (codes "E1")
          | Scan.undefined ↦ Reply.undefined
        ])
        (scan_x-hex2 i [] (omega arith))
      ∙ ap (λ (r : RegType). response (register_value r i s)) (reg_type-gpreg i h)

  write_register-gpreg :
      (i v : ℕ) (s : Session M)
      → i < 31
      → v < 2 ^ 32
      → write_register (write_request i v) s
        ≡ (response (codes "OK"), record s { cpu = set_gp i v s.cpu })
  unfolding write_register set_decoded set_register
  write_register-gpreg i v s h small =
      let value : decoded_le4 (le4 v) ≡ some (true, v) =
        ap decoded_le4 (sym (append-nil (le4 v))) ∙ decoded_le4-le4 v [] small in
      rw
        (
          write_register,
          scan_unsigned-named i (le4 v) (omega arith),
          find-value i (le4 v) (omega arith),
          reg_type-gpreg i h,
          value,
        )
        refl

  -- Of the registers 0 to 30, which are x0 to x30: a write of one of them is answered with OK, and a read of any of them then gives the
  -- value that was written, if it is a read of that register and this is not register 0, and else
  -- what it gave before the write.
  pub read_register-write_register :
      (i j v : ℕ) (s : Session M)
      → i < 31
      → j < 31
      → v < 2 ^ 32
      → (let (reply, t) = write_register (write_request i v) s in
          (reply ≡ response (codes "OK"))
          × (read_register (read_request j) t ≡ (
              if (j == i) && ltb 0 i then response (le4 v) else read_register (read_request j) s)))
  read_register-write_register i j v s hi hj small =
      rw (write_register-gpreg i v s hi small, read_register-gpreg j s hj)
        (
          refl,
          read_register-gpreg j (record s { cpu = set_gp i v s.cpu }) hj
              ∙ ground (arith, gp-update i j v s.cpu),
        )
