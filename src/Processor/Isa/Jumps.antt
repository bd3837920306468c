-- ===== src/Processor/Isa/Jumps.antt =====
-- The JUMP class.
use muir.Base.{ℕ, ◌+◌, ◌*◌, ◌/◌, ◌%◌, ◌^◌, ◌<◌, bit_or, false, ◌≡◌}
use muir.Base.{ap, ◌∙◌, arith, of_bool}
use muir.Base.Bits.{bit_or-disjoint}
use muir.Processor.Isa.{Insn, jump_class, insn, field, flag, op, popj, a_src, m_src}
use muir.Processor.Isa.{m_src_functional, misc, ilong, statistics, jump_fields}
use muir.Processor.Isa.Asm.{jump, target, test_bit}

flag-of_bool : (i : Insn) (pos : ℕ) → of_bool (flag i pos) ≡ i.raw / 2 ^ pos % 2
flag-of_bool i pos = ground arith

-- A microinstruction of 48 bits is what the JUMP class's fields and those of every class say,
-- and its top bit, which no field reads.
pub jump_fields-raw :
    (i : Insn)
    → i.raw < 2 ^ 48
    → let j = jump_fields i in
      i.raw
      ≡ i.raw / 2 ^ 47 * 2 ^ 47
        + of_bool (statistics i) * 2 ^ 46
        + of_bool (ilong i) * 2 ^ 45
        + field i 43 2 * 2 ^ 43
        + of_bool (popj i) * 2 ^ 42
        + a_src i * 2 ^ 32
        + of_bool (m_src_functional i) * 2 ^ 31
        + m_src i * 2 ^ 26
        + j.target * 2 ^ 12
        + misc i * 2 ^ 10
        + of_bool j.r * 2 ^ 9
        + of_bool j.p * 2 ^ 8
        + of_bool j.n * 2 ^ 7
        + of_bool j.invert * 2 ^ 6
        + of_bool j.internal_cond * 2 ^ 5
        + j.rotate
jump_fields-raw i h = omega (
  arith,
  flag-of_bool i 46,
  flag-of_bool i 45,
  flag-of_bool i 42,
  flag-of_bool i 31,
  flag-of_bool i 9,
  flag-of_bool i 8,
  flag-of_bool i 7,
  flag-of_bool i 6,
  flag-of_bool i 5,
)

jump-at :
    (pc bits : ℕ)
    → pc < 2 ^ 14
    → bits < 2 ^ 12
    → bit_or (bit_or jump (target pc)) bits ≡ 2 ^ 43 + pc * 2 ^ 12 + bits
jump-at pc bits h k =
    ap (λ x. bit_or x bits) (bit_or-disjoint 43 1 (pc * 2 ^ 12) (omega arith) ∙ omega arith)
    ∙ bit_or-disjoint 12 (2 ^ 31 + pc) bits (omega arith)
    ∙ omega arith

-- A jump to a 14-bit address on a bit of the M source decodes as a JUMP to that address, neither
-- call nor return, which rotates the source left as far as brings that bit to the bottom.
pub jump-test_bit :
    (pc b : ℕ)
    → pc < 2 ^ 14
    → b < 32
    → let i = insn (bit_or (bit_or jump (target pc)) (test_bit b)) in
      let j = jump_fields i in
      (op i ≡ jump_class)
      × (j.target ≡ pc)
      × (j.r ≡ false)
      × (j.p ≡ false)
      × (j.n ≡ false)
      × (j.invert ≡ false)
      × (j.internal_cond ≡ false)
      × ((j.rotate + b) % 32 ≡ 0)
jump-test_bit pc b h k = ground (arith, jump-at pc (test_bit b) h (omega arith))
