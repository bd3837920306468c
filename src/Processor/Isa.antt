-- ===== src/Processor/Isa.antt =====
-- src/isa.rs: the fields of the 48-bit microinstruction.
pub mod Asm
pub mod Jumps
mod Examples
use muir.Base.{
  ℕ, zero, suc, ◌+◌, ◌-◌, ◌*◌, ◌/◌, ◌%◌, ◌^◌, bit_or, ◌==◌, bit, Bool, true, false, not, ◌<<<◌,
  ◌>>>◌,
}
use muir.Base.{low_bits}

-- The number alone: `Insn` is a 48-bit number.
pub record Insn : Type 0 where
  pub raw : ℕ

pub data Op : Type 0 where
  alu_class jump_class dispatch_class byte_class : Op

-- `Insn::new`
abbrev pub insn : ℕ → Insn
insn raw = record { raw = low_bits raw 48 }

abbrev pub field : Insn → ℕ → ℕ → ℕ
field i pos len = low_bits (i.raw >>> pos) len

-- A field of one bit, `!= 0`.
abbrev pub flag : Insn → ℕ → Bool
flag i pos = not (field i pos 1 == 0)

abbrev pub statistics : Insn → Bool
statistics i = flag i 46

abbrev pub ilong : Insn → Bool
ilong i = flag i 45

abbrev pub op_of : ℕ → Op
op_of zero = alu_class
op_of (suc zero) = jump_class
op_of (suc (suc zero)) = dispatch_class
op_of (suc (suc (suc n))) = byte_class

abbrev pub op : Insn → Op
op i = op_of (field i 43 2)

abbrev pub popj : Insn → Bool
popj i = flag i 42

abbrev pub a_src : Insn → ℕ
a_src i = field i 32 10

abbrev pub m_src_functional : Insn → Bool
m_src_functional i = flag i 31

abbrev pub m_src : Insn → ℕ
m_src i = field i 26 5

abbrev pub misc : Insn → ℕ
misc i = field i 10 2

-- `Dest`, twelve bits.
abbrev pub is_a_mem : ℕ → Bool
is_a_mem dest = bit dest 11

abbrev pub a_addr : ℕ → ℕ
a_addr dest = low_bits dest 10

abbrev pub m_addr : ℕ → ℕ
m_addr dest = low_bits dest 5

pub record AluFields : Type 0 where
  pub dest : ℕ
  pub ob_select : ℕ
  pub func : ℕ
  pub carry_in : Bool
  pub q_control : ℕ

abbrev pub alu_fields : Insn → AluFields
alu_fields i = record {
  dest = field i 14 12;
  ob_select = field i 12 2;
  func = field i 3 6;
  carry_in = flag i 2;
  q_control = field i 0 2;
}

pub record JumpFields : Type 0 where
  pub target : ℕ
  pub r : Bool
  pub p : Bool
  pub n : Bool
  pub invert : Bool
  pub internal_cond : Bool
  pub cond : ℕ
  pub rotate : ℕ

abbrev pub jump_fields : Insn → JumpFields
jump_fields i = record {
  target = field i 12 14;
  r = flag i 9;
  p = flag i 8;
  n = flag i 7;
  invert = flag i 6;
  internal_cond = flag i 5;
  cond = field i 0 3;
  rotate = field i 0 5;
}

pub record DispatchFields : Type 0 where
  pub constant : ℕ
  pub use_lpc : Bool
  pub advance_lc : Bool
  pub addr : ℕ
  pub map : ℕ
  pub len : ℕ
  pub rotate : ℕ

abbrev pub dispatch_fields : Insn → DispatchFields
dispatch_fields i = record {
  constant = field i 32 10;
  use_lpc = flag i 25;
  advance_lc = flag i 24;
  addr = field i 12 11;
  map = field i 8 2;
  len = field i 5 3;
  rotate = field i 0 5;
}

pub record ByteFields : Type 0 where
  pub dest : ℕ
  pub func : ℕ
  pub width_minus_1 : ℕ
  pub rotate : ℕ

abbrev pub byte_fields : Insn → ByteFields
byte_fields i = record {
  dest = field i 14 12;
  func = field i 12 2;
  width_minus_1 = field i 5 5;
  rotate = field i 0 5;
}
