-- ===== src/Processor/Alu/Compare.antt =====
-- What the jump conditions read off the array in subtract mode.
use muir.Base.{ℕ, ◌+◌, ◌-◌, ◌*◌, ◌/◌, ◌%◌, ◌^◌, ◌<◌, Bool, true, false, ◌≡◌, refl}
use muir.Base.{◌∙◌, arith, bit, ◌==◌}
use muir.Base.Bits.{bit_or-disjoint_low}
use muir.Base.Int.{signed32, leb_ℤ}
use muir.Processor.Alu.{alu, sign_extend, alu_control, column}

-- The ninth slice in arithmetic.
pub sign_extend-eq : (m : ℕ) → m < 2 ^ 32 → sign_extend m ≡ m + m / 2 ^ 31 * 2 ^ 32
sign_extend-eq m h = omega (arith, bit_or-disjoint_low 32 m (m / 2 ^ 31) h)

-- Subtraction less one, the column that a JUMP selects.
pub alu-subtract_f :
    (m a : ℕ)
    → m < 2 ^ 32
    → a < 2 ^ 32
    → (alu m a 0b0110 false false).f
      ≡ (m + m / 2 ^ 31 * 2 ^ 32 + (2 ^ 33 - 1 - (a + a / 2 ^ 31 * 2 ^ 32))) % 2 ^ 33
unfolding alu
alu-subtract_f m a hm ha = omega (arith, sign_extend-eq m hm, sign_extend-eq a ha)

aeqm-eq :
    (m a : ℕ)
    → (alu m a 0b0110 false false).aeqm ≡ ((alu m a 0b0110 false false).f % 2 ^ 32 == 0xffff_ffff)
unfolding alu
aeqm-eq m a = refl

jump_column :
    (ir : ℕ) (q0 a31 : Bool) → alu_control ir q0 a31 false true ≡ column ir true true false
unfolding alu_control
jump_column ir q0 a31 = ground arith

-- On a JUMP, whatever its other bits, the array's A=B output says whether the sources are equal,
-- and bit 32 of its result whether M is at most A, both as signed 32-bit numbers.
pub alu_jump :
    (ir m a : ℕ) (q0 a31 : Bool)
    → m < 2 ^ 32
    → a < 2 ^ 32
    → let c = alu_control ir q0 a31 false true in
      let r = alu m a c.aluf c.alumode c.cin in
      (r.aeqm ≡ (m == a)) × (bit r.f 32 ≡ leb_ℤ (signed32 m) (signed32 a))
unfolding alu_control
alu_jump ir m a q0 a31 hm ha = rw (jump_column ir q0 a31) (
  aeqm-eq m a ∙ ground (arith, alu-subtract_f m a hm ha),
  ground (arith, alu-subtract_f m a hm ha),
)
