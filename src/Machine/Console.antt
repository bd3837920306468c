-- ===== src/Machine/Console.antt =====
-- src/spy.rs: the diagnostic console's registers, written and read over the spy bus.
pub mod Saves
mod Examples
use muir.Base.{
  ℕ, zero, suc, ◌+◌, ◌-◌, ◌*◌, ◌/◌, ◌%◌, ◌^◌, bit_or, Bool, true, false, not, ◌&&◌, leb, ltb,
}
use muir.Base.{
  bit, of_bool, if◌then◌else◌, Option, some, none, List, [], ◌∷◌, ◌<<<◌, ◌>>>◌, low_bits,
}

abbrev pub base : ℕ
base = 0o766000

-- The spy register that a Unibus address names.
unfoldable pub register : ℕ → Option ℕ
register uaddr =
    if leb base uaddr && ltb uaddr (base + 0o40) then some (low_bits (uaddr >>> 1) 4) else none

abbrev pub ir_low : ℕ
ir_low = 0

abbrev pub ir_med : ℕ
ir_med = 1

abbrev pub ir_high : ℕ
ir_high = 2

abbrev pub opc : ℕ
opc = 4

abbrev pub pc : ℕ
pc = 5

abbrev pub ob_low : ℕ
ob_low = 6

abbrev pub ob_high : ℕ
ob_high = 7

abbrev pub flag_1 : ℕ
flag_1 = 8

abbrev pub flag_2 : ℕ
flag_2 = 9

abbrev pub m_low : ℕ
m_low = 10

abbrev pub m_high : ℕ
m_high = 11

abbrev pub a_low : ℕ
a_low = 12

abbrev pub a_high : ℕ
a_high = 13

abbrev pub stat_low : ℕ
stat_low = 14

abbrev pub stat_high : ℕ
stat_high = 15

abbrev pub open_read : ℕ
open_read = 0xffff

abbrev pub write_strobe : ℕ → ℕ
write_strobe eadr = low_bits eadr 3

pub record Mode : Type 0 where
  pub speed0 : Bool
  pub speed1 : Bool
  pub errstop : Bool
  pub stathenb : Bool
  pub trapenb : Bool
  pub prom_disable : Bool

abbrev pub default_mode : Mode
default_mode = record {
  speed0 = false;
  speed1 = false;
  errstop = false;
  stathenb = false;
  trapenb = false;
  prom_disable = false;
}

-- `Mode::write`, which keeps nothing of the register.
unfoldable pub mode_of : ℕ → Mode
mode_of spy = record {
  speed0 = bit spy 0;
  speed1 = bit spy 1;
  errstop = bit spy 2;
  stathenb = bit spy 3;
  trapenb = bit spy 4;
  prom_disable = bit spy 5;
}

pub record ClockControl : Type 0 where
  pub run : Bool
  pub single_step : Bool
  pub nop11 : Bool
  pub idebug : Bool
  pub ldstat : Bool

-- `ClockControl { run, ..Default::default() }`
abbrev pub running : Bool → ClockControl
running run = record {
  run = run;
  single_step = false;
  nop11 = false;
  idebug = false;
  ldstat = false;
}

unfoldable pub clock_control_of : ℕ → ClockControl
clock_control_of spy = record {
  run = bit spy 0;
  single_step = bit spy 1;
  nop11 = bit spy 2;
  idebug = bit spy 3;
  ldstat = bit spy 4;
}

pub record OpcControl : Type 0 where
  pub lpc_hold : Bool
  pub opcclk : Bool
  pub opcinh : Bool

abbrev pub default_opc_control : OpcControl
default_opc_control = record { lpc_hold = false; opcclk = false; opcinh = false }

unfoldable pub opc_control_of : ℕ → OpcControl
opc_control_of spy = record { lpc_hold = bit spy 0; opcclk = bit spy 1; opcinh = bit spy 2 }

-- `(debug_ir & !(0xffff << shift)) | spy << shift`: the bits above the half, and those below it,
-- are kept.
unfoldable pub write_debug_ir : ℕ → ℕ → ℕ → ℕ
write_debug_ir debug_ir half spy =
    let shift = 16 * half in
    bit_or ((debug_ir >>> (shift + 16)) * 2 ^ (shift + 16) + low_bits debug_ir shift)
      (spy <<< shift)

pub record Flag1 : Type 0 where
  pub wait : Bool
  pub v1pe : Bool
  pub v0pe : Bool
  pub promdisable : Bool
  pub stathalt : Bool
  pub err : Bool
  pub ssdone : Bool
  pub srun : Bool
  pub higherr : Bool
  pub mempe : Bool
  pub ipe : Bool
  pub dpe : Bool
  pub spe : Bool
  pub pdlpe : Bool
  pub mpe : Bool
  pub ape : Bool

abbrev pub default_flag1 : Flag1
default_flag1 = record {
  wait = false;
  v1pe = false;
  v0pe = false;
  promdisable = false;
  stathalt = false;
  err = false;
  ssdone = false;
  srun = false;
  higherr = false;
  mempe = false;
  ipe = false;
  dpe = false;
  spe = false;
  pdlpe = false;
  mpe = false;
  ape = false;
}

-- The fold of `byte`, from a word and the bit that the first flag goes to.
unfoldable pub byte_from : ℕ → ℕ → List Bool → ℕ
byte_from w top [] = w
byte_from w top (b ∷ bs) = byte_from (bit_or w (of_bool b <<< top)) (top - 1) bs

unfoldable pub flag1_word : Flag1 → ℕ
unfolding byte_from
flag1_word f =
    bit_or
      (byte_from 0 15 (
        not f.wait
        ∷ not f.v1pe
        ∷ not f.v0pe
        ∷ f.promdisable
        ∷ not f.stathalt
        ∷ f.err
        ∷ f.ssdone
        ∷ f.srun
        ∷ []))
      (byte_from 0 7 (f.higherr ∷ f.mempe ∷ f.ipe ∷ f.dpe ∷ f.spe ∷ f.pdlpe ∷ f.mpe ∷ f.ape ∷ []))

unfoldable pub flag1_of : ℕ → Flag1
flag1_of w = record {
  wait = not (bit w 15);
  v1pe = not (bit w 14);
  v0pe = not (bit w 13);
  promdisable = bit w 12;
  stathalt = not (bit w 11);
  err = bit w 10;
  ssdone = bit w 9;
  srun = bit w 8;
  higherr = bit w 7;
  mempe = bit w 6;
  ipe = bit w 5;
  dpe = bit w 4;
  spe = bit w 3;
  pdlpe = bit w 2;
  mpe = bit w 1;
  ape = bit w 0;
}

pub record Flag2 : Type 0 where
  pub wmapd : Bool
  pub destspcd : Bool
  pub iwrited : Bool
  pub imodd : Bool
  pub pdlwrited : Bool
  pub spushd : Bool
  pub ir48 : Bool
  pub nop : Bool
  pub vmaok : Bool
  pub jcond : Bool
  pub pcs1 : Bool
  pub pcs0 : Bool

abbrev pub default_flag2 : Flag2
default_flag2 = record {
  wmapd = false;
  destspcd = false;
  iwrited = false;
  imodd = false;
  pdlwrited = false;
  spushd = false;
  ir48 = false;
  nop = false;
  vmaok = false;
  jcond = false;
  pcs1 = false;
  pcs0 = false;
}

-- Each flag to its bit, over `OPEN`.
abbrev pub or_flags : ℕ → List (Bool × ℕ) → ℕ
or_flags w [] = w
or_flags w ((b, k) ∷ rest) = or_flags (bit_or w (of_bool b <<< k)) rest

unfoldable pub flag2_word : Flag2 → ℕ
flag2_word f = or_flags 0xc0c0 (
    (f.wmapd, 13)
    ∷ (f.destspcd, 12)
    ∷ (f.iwrited, 11)
    ∷ (f.imodd, 10)
    ∷ (f.pdlwrited, 9)
    ∷ (f.spushd, 8)
    ∷ (f.ir48, 5)
    ∷ (f.nop, 4)
    ∷ (not f.vmaok, 3)
    ∷ (f.jcond, 2)
    ∷ (f.pcs1, 1)
    ∷ (f.pcs0, 0)
    ∷ [])
