-- ===== src/State/Privilege.antt =====
-- The privilege stack: PushPrivilegeLevel, PopPrivilegeLevel (src/riscv_core_state.C).
use dimebox.Common.{
  ℕ, ◌||◌, ◌+◌, ◌-◌, ◌*◌, ◌/◌, ◌%◌, ◌^◌, ◌<◌, ◌≡◌, bit_and, bit_or, ◌==◌, refl, arith, ◌⊎◌, ◌∙◌,
  min, max, if◌then◌else◌, ◌<<<◌, ◌>>>◌, bit-and, bit-or, and_ones,
}
use dimebox.State.{RiscvState, mstatus, set_mstatus, current_privilege_level, set_privilege_level}
use dimebox.State.Fields.{mie_bit, mpie_bit, mpp, legal_mstatus_fields, mstatus_fields}
use dimebox.State.Trap.{push_privilege_level, pop_privilege_level}

pub and-three : (a : ℕ) → bit_and a 3 ≡ a % 4
and-three a = and_ones 2 a

pub and-one : (a : ℕ) → bit_and a 1 ≡ a % 2
and-one a = and_ones 1 a

pub current_privilege_level-lt : (s : RiscvState) → current_privilege_level s < 4
unfolding current_privilege_level
current_privilege_level-lt s = omega (arith, and-three s.machine_state)

-- The level is what was set, and the rest of the machine state is untouched.
set_level : (m l : ℕ) → l < 4 → bit_and (bit_or (bit_and m (2 ^ 32 - 1 - 3)) l) 3 ≡ l
set_level m l h = omega (
  arith,
  and-three (bit_or (bit_and m (2 ^ 32 - 1 - 3)) l),
  bit-or 0 (bit_and m (2 ^ 32 - 1 - 3)) l,
  bit-or 1 (bit_and m (2 ^ 32 - 1 - 3)) l,
  bit-and 0 m (2 ^ 32 - 1 - 3),
  bit-and 1 m (2 ^ 32 - 1 - 3),
)

pub current_privilege_level-set_privilege_level :
    (l : ℕ) (s : RiscvState) → l < 4 → current_privilege_level (set_privilege_level l s) ≡ l
unfolding current_privilege_level set_privilege_level
current_privilege_level-set_privilege_level l s h = set_level s.machine_state l h

-- The word that is written to MSTATUS on the way into a trap.
pushed : ℕ → ℕ → ℕ
pushed old level =
    bit_or (bit_or (bit_and old (2 ^ 32 - 1 - 0xc88)) (level <<< 11)) (bit_and (old >>> 3) 1 <<< 7)

pushed_bit :
    (i old level : ℕ)
    → pushed old level / 2 ^ i % 2
      ≡ max
          (max
            (min (old / 2 ^ i % 2) ((2 ^ 32 - 1 - 0xc88) / 2 ^ i % 2))
            (level * 2048 / 2 ^ i % 2))
          (old / 8 % 2 * 128 / 2 ^ i % 2)
unfolding pushed
pushed_bit i old level = ground (
  arith,
  bit-or i (bit_or (bit_and old (2 ^ 32 - 1 - 0xc88)) (level * 2048)) (bit_and (old / 8) 1 * 128),
  bit-or i (bit_and old (2 ^ 32 - 1 - 0xc88)) (level * 2048),
  bit-and i old (2 ^ 32 - 1 - 0xc88),
  and-one (old / 8),
)

pushed-mie_bit : (old level : ℕ) → mie_bit (pushed old level) ≡ 0
pushed-mie_bit old level = omega (arith, pushed_bit 3 old level)

pushed-mpie_bit : (old level : ℕ) → mpie_bit (pushed old level) ≡ mie_bit old
pushed-mpie_bit old level = omega (arith, pushed_bit 7 old level)

-- Bit 12 is not cleared, so it is that of the old MPP or that of the level.
pushed-mpp :
    (old level : ℕ)
    → level < 4
    → mpp (pushed old level) ≡ level % 2 + 2 * max (mpp old / 2) (level / 2)
pushed-mpp old level h = omega (arith, pushed_bit 11 old level, pushed_bit 12 old level)

-- The word that is written to MSTATUS on the way out.
popped : ℕ → ℕ
popped old = bit_or (bit_or (bit_and old (2 ^ 32 - 1 - 0x1888)) (bit_and (old >>> 7) 1 <<< 3)) 0x80

popped_bit :
    (i old : ℕ)
    → popped old / 2 ^ i % 2
      ≡ max
          (max
            (min (old / 2 ^ i % 2) ((2 ^ 32 - 1 - 0x1888) / 2 ^ i % 2))
            (old / 128 % 2 * 8 / 2 ^ i % 2))
          (0x80 / 2 ^ i % 2)
unfolding popped
popped_bit i old = ground (
  arith,
  bit-or i (bit_or (bit_and old (2 ^ 32 - 1 - 0x1888)) (bit_and (old / 128) 1 * 8)) 0x80,
  bit-or i (bit_and old (2 ^ 32 - 1 - 0x1888)) (bit_and (old / 128) 1 * 8),
  bit-and i old (2 ^ 32 - 1 - 0x1888),
  and-one (old / 128),
)

popped-mie_bit : (old : ℕ) → mie_bit (popped old) ≡ mpie_bit old
popped-mie_bit old = omega (arith, popped_bit 3 old)

popped-mpie_bit : (old : ℕ) → mpie_bit (popped old) ≡ 1
popped-mpie_bit old = omega (arith, popped_bit 7 old)

popped-mpp : (old : ℕ) → mpp (popped old) ≡ 0
popped-mpp old = omega (arith, popped_bit 11 old, popped_bit 12 old)

abbrev pub privilege : RiscvState → ℕ
privilege s = current_privilege_level s

-- MPP after a push.
abbrev pub saved_level : RiscvState → ℕ
saved_level s =
    let m = privilege s % 2 + 2 * max (mpp s.mstatus_reg / 2) (privilege s / 2) in
    if (m == 1) || (m == 2) then mpp s.mstatus_reg else m

-- The state after a push, seen through the fields that it changes.
pub push_fields :
    (s : RiscvState)
    → let t = push_privilege_level s in
      (privilege t ≡ 3)
      × (mie_bit t.mstatus_reg ≡ 0)
      × (mpie_bit t.mstatus_reg ≡ mie_bit s.mstatus_reg)
      × (mpp t.mstatus_reg ≡ saved_level s)
unfolding push_privilege_level set_mstatus set_privilege_level current_privilege_level pushed
push_fields s =
    let w = pushed (mstatus s) (privilege s) in
    let f = legal_mstatus_fields (mstatus s) w in
    let g = mstatus_fields s in
    (
      set_level s.machine_state 3 (omega arith),
      f.0 ∙ pushed-mie_bit (mstatus s) (privilege s),
      f.1 ∙ pushed-mpie_bit (mstatus s) (privilege s) ∙ g.0,
      ground (arith, f.2, g.2, pushed-mpp (mstatus s) (privilege s), current_privilege_level-lt s),
    )

pub pop_fields :
    (s : RiscvState)
    → let t = pop_privilege_level s in
      (privilege t ≡ mpp s.mstatus_reg)
      × (mie_bit t.mstatus_reg ≡ mpie_bit s.mstatus_reg)
      × (mpie_bit t.mstatus_reg ≡ 1)
      × (mpp t.mstatus_reg ≡ 0)
unfolding pop_privilege_level set_mstatus set_privilege_level current_privilege_level popped
pop_fields s =
    let w = popped (mstatus s) in
    let f = legal_mstatus_fields (mstatus s) w in
    let g = mstatus_fields s in
    (
      ground
          (arith, g.2, and-three (mstatus s / 2048), set_level s.machine_state (mpp (mstatus s))),
      f.0 ∙ popped-mie_bit (mstatus s) ∙ g.1,
      f.1 ∙ popped-mpie_bit (mstatus s),
      ground (arith, f.2, popped-mpp (mstatus s)),
    )

-- From user or machine mode, a push and then a pop give back the privilege level and the interrupt
-- enable, if the level is machine mode or the upper bit of MPP was clear.
pop-push :
    (s : RiscvState)
    → (privilege s ≡ 0) ⊎ (privilege s ≡ 3)
    → (privilege s ≡ 3) ⊎ (mpp s.mstatus_reg < 2)
    → let t = pop_privilege_level (push_privilege_level s) in
      (privilege t ≡ privilege s) × (mie_bit t.mstatus_reg ≡ mie_bit s.mstatus_reg)
pop-push s level clear =
    let p = push_fields s in
    let q = pop_fields (push_privilege_level s) in (ground (arith, p.3, q.0), q.1 ∙ p.2)

-- From user mode with an MPP of 3, a push and then a pop end in machine mode: bit 12 of MSTATUS is
-- not cleared, so MPP becomes the reserved value 2, and the setter then keeps the old one.
pub pop-push_escalates :
    (s : RiscvState)
    → privilege s ≡ 0
    → mpp s.mstatus_reg ≡ 3
    → privilege (pop_privilege_level (push_privilege_level s)) ≡ 3
pop-push_escalates s user old =
    ground (arith, (push_fields s).3, (pop_fields (push_privilege_level s)).0)

-- What a push and a pop leave alone.
pub record SameOutside (s t : RiscvState) : Type 0 where
  pub same_pc : t.pc ≡ s.pc
  pub same_mepc : t.mepc ≡ s.mepc
  pub same_mtvec : t.mtvec ≡ s.mtvec
  pub same_mcause : t.mcause ≡ s.mcause
  pub same_mip : t.mip ≡ s.mip
  pub same_mie : t.mie ≡ s.mie
  pub same_misa : t.misa ≡ s.misa
  pub same_x : t.x ≡ s.x

pub push-SameOutside : (s : RiscvState) → SameOutside s (push_privilege_level s)
unfolding push_privilege_level set_mstatus set_privilege_level
push-SameOutside s = record {
  same_pc = refl;
  same_mepc = refl;
  same_mtvec = refl;
  same_mcause = refl;
  same_mip = refl;
  same_mie = refl;
  same_misa = refl;
  same_x = refl;
}

pub pop-SameOutside : (s : RiscvState) → SameOutside s (pop_privilege_level s)
unfolding pop_privilege_level set_mstatus set_privilege_level
pop-SameOutside s = record {
  same_pc = refl;
  same_mepc = refl;
  same_mtvec = refl;
  same_mcause = refl;
  same_mip = refl;
  same_mie = refl;
  same_misa = refl;
  same_x = refl;
}
