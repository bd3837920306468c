-- ===== src/Machine/Saves/State.antt =====
-- src/machine.rs, `Machine`: what a checkpoint has of it up to the flag before the level-2 map,
-- the arrays as lists.
use muir.Base.{ℕ, Bool, List, Option, none, some, if◌then◌else◌, ◌==◌, ◌&&◌, leb, not}
use muir.Machine.Geometry.{Geometry, cadr, quux, quux_11, quux_13}
use muir.Machine.Timer.{Timers, Rtc}
use muir.Machine.MacroDispatch.{MacroDispatch}
use muir.Machine.FileDevice.{FileDevice}
use muir.Processor.Isa.{Insn}
use muir.Micro.State.{Console}

pub record Arrays : Type 0 where
  pub amem : List ℕ
  pub mmem : List ℕ
  pub dmem : List ℕ
  pub pdl : List ℕ
  pub spc : List ℕ
  pub l1_map : List ℕ

pub record Pointers : Type 0 where
  pub spcptr : ℕ
  pub pdl_pointer : ℕ
  pub pdl_index : ℕ

pub record Registers : Type 0 where
  pub q : ℕ
  pub opc : ℕ
  pub lc : ℕ
  pub vma : ℕ
  pub md : ℕ
  pub interrupt_control : ℕ
  pub dispatch_constant : ℕ

pub record Head : Type 0 where
  pub prom : List Insn
  pub imem : List Insn
  pub console : Console
  pub arrays : Arrays
  pub pointers : Pointers
  pub registers : Registers
  pub geometry : Geometry
  pub overflow : Bool
  pub timers : Timers
  pub macro_dispatch : MacroDispatch
  pub rtc : Rtc
  pub file_device : FileDevice
  pub dma_written : Bool

-- What a checkpoint says of the geometry, with the word's width, the reader's.
pub record Codes : Type 0 where
  pub word_bits : ℕ
  pub l1_bits : ℕ
  pub pdl_bits : ℕ
  pub muldiv : Bool
  pub tick : Bool
  pub fused : Bool

-- `10..=14`
abbrev pub pdl_allowed : ℕ → Bool
pdl_allowed bits = leb 10 bits && leb bits 14

-- The match of `load_to_geometry`: the CADR, or a revision of QUUX with its PDL buffer's size.
unfoldable pub geometry_of : Codes → Option Geometry
geometry_of c =
    if c.word_bits == 32
      && c.l1_bits == 5
      && c.pdl_bits == 10
      && not c.muldiv
      && not c.tick
      && not c.fused
    then some cadr
    else if c.word_bits == 32
        && c.l1_bits == 6
        && pdl_allowed c.pdl_bits
        && c.muldiv
        && c.tick
        && c.fused
    then some (record quux { pdl_bits = c.pdl_bits })
    else if c.word_bits == 32
        && c.l1_bits == 6
        && pdl_allowed c.pdl_bits
        && c.muldiv
        && c.tick
        && not c.fused
    then some (record quux_11 { pdl_bits = c.pdl_bits })
    else if c.word_bits == 40
        && c.l1_bits == 7
        && pdl_allowed c.pdl_bits
        && c.muldiv
        && c.tick
        && c.fused
    then some (record quux_13 { pdl_bits = c.pdl_bits })
    else none

-- What `save` writes of a geometry.
abbrev pub codes : Geometry → Codes
codes g = record {
  word_bits = g.word_bits;
  l1_bits = g.l1_bits;
  pdl_bits = g.pdl_bits;
  muldiv = g.has_muldiv;
  tick = g.has_tick;
  fused = g.has_macro_dispatch;
}
