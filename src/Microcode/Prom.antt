-- ===== src/Microcode/Prom.antt =====
-- src/prom.rs: a boot PROM from a microcode file, and its words as they are burned.
use muir.Base.{ℕ, zero, suc, ◌+◌, ◌-◌, ◌*◌, ◌/◌, ◌%◌, ◌^◌, bit_or, Bool, true, false, List, [], ◌∷◌}
use muir.Base.{◌++◌, Option, none, some, length, take, drop, replicate, leb, ltb, ◌==◌, not, ◌<<<◌}
use muir.Base.{◌>>>◌, low_bits, bit, if◌then◌else◌, map}
use muir.Machine.Geometry.{quux_prom_base}
use muir.Processor.Isa.{Insn, insn}
use muir.Microcode.{
  Error, Result, ok, err, ◌>>=◌, ◌>>◌, refuse, no_program, too_many_words, not_at_zero,
  statistics_bit, below_base, nothing_at_base,
}
use muir.Microcode.Mcr.{Mcr, parse, parse_partition_order}
pub mod Burned
pub mod Accepted
mod Examples

abbrev pub prom_words : ℕ
prom_words = 1024

-- `position`, from an address on.
abbrev pub position : (Insn → Bool) → ℕ → List Insn → Option ℕ
position test at [] = none
position test at (i ∷ is) = if test i then some at else position test (at + 1) is

-- The statistics bit, `IR<46>`.
abbrev pub has_statistics : Insn → Bool
has_statistics i = bit i.raw 46

abbrev pub is_set : Insn → Bool
is_set i = not (i.raw == 0)

-- The refusal of a word that was found.
abbrev pub refuse_at : Option ℕ → (ℕ → Error) → Result (Unit {0})
refuse_at none e = ok tt
refuse_at (some at) e = err (e at)

-- `v.resize(PROM_WORDS, Insn::new(0))`
abbrev pub resize : List Insn → List Insn
resize v = take prom_words v ++ replicate (prom_words - length v) (insn 0)

pub parse_mcr : List ℕ → Result (List Insn)
parse_mcr bytes = do
  m ← parse bytes
  refuse (length m.imem == 0) no_program
  refuse (ltb prom_words (length m.imem)) (too_many_words (length m.imem))
  refuse (not (m.imem_start == 0)) (not_at_zero m.imem_start)
  refuse_at (position has_statistics 0 m.imem) statistics_bit
  ok (resize m.imem)

pub parse_quux_mcr : List ℕ → Result (List Insn)
parse_quux_mcr bytes = do
  m ← parse_partition_order bytes
  refuse (not (m.imem_start == 0)) (not_at_zero m.imem_start)
  refuse (ltb (quux_prom_base + prom_words) (length m.imem)) (too_many_words (length m.imem))
  refuse_at (position is_set 0 (take quux_prom_base m.imem)) below_base
  refuse (leb (length m.imem) quux_prom_base) (nothing_at_base (length m.imem))
  let v = drop quux_prom_base m.imem
  refuse_at (position has_statistics quux_prom_base v) statistics_bit
  ok (resize v)

-- `count_ones` of the low `n` bits.
pub count_ones : ℕ → ℕ → ℕ
count_ones zero w = 0
count_ones (suc n) w = w % 2 + count_ones n (w / 2)

-- `(raw & ((1 << 46) - 1)) | ((raw >> 47) & 1) << 46`
pub burned_low : Insn → ℕ
burned_low i = bit_or (low_bits i.raw 46) (low_bits (i.raw >>> 47) 1 <<< 46)

pub programming : Insn → ℕ
programming i = let low = burned_low i in bit_or ((1 - count_ones 64 low % 2) <<< 47) low

pub unprogramming : ℕ → Insn
unprogramming word = insn (bit_or (low_bits (word >>> 46) 1 <<< 47) (low_bits word 46))
