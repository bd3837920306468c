-- ===== src/Micro/State.antt =====
-- src/micro.rs, `Micro`: the engine's state, with the part of the machine's that a microcycle
-- reads or writes.
use muir.Base.{ℕ, Bool, true, false, List, Option, low_bits, ◌>>>◌}
use muir.Base.Memory.{Memory}
use muir.Machine.Geometry.{Geometry}
use muir.Machine.Map.{Maps, Translation, translate}
use muir.Machine.MacroDispatch.{MacroDispatch, Operand, Destination}
use muir.Machine.Console.{Mode, ClockControl, OpcControl}
use muir.Machine.Timer.{Timers}
use muir.Memory.Cycle.{Speed}
use muir.Processor.Isa.{Insn}
use muir.Micro.Stack.{Stack}
use muir.Micro.Pdl.{Pdl}
use muir.Micro.Counter.{Counter}

-- What the console writes, and the resets it has asked for.
pub record Console : Type 0 where
  pub mode : Mode
  pub clock_control : ClockControl
  pub opc_control : OpcControl
  pub debug_ir : ℕ
  pub prog_reset : Bool
  pub prog_boot : Bool

-- What a bus cycle may change: main memory is among the devices.
pub record Bus (D : Type 0) : Type 0 where
  pub console : Console
  pub timers : Timers
  pub devices : D

-- The calls that leave the processor, each at a time in nanoseconds. `advance` brings the I/O
-- board and the file device to that time.
pub record Devices (D : Type 0) : Type 0 where
  pub bus_read : ℕ → Bus D → ℕ → ℕ × Bus D
  pub bus_write : ℕ → Bus D → ℕ → ℕ → Bus D
  pub interrupt : ℕ → Bus D → Bool
  pub advance : ℕ → D → D
  pub bus_reset : ℕ → D → D

-- The data path and its memories.
pub record DataPath : Type 0 where
  pub amem : Memory
  pub mmem : Memory
  pub dmem : Memory
  pub q : ℕ
  pub overflow : Bool
  pub dispatch_constant : ℕ
  pub aaddr : ℕ
  pub maddr : ℕ
  pub adata : ℕ
  pub mdata : ℕ
  pub alu_out : ℕ
  pub old_q : ℕ
  pub out : ℕ
  pub iwr : ℕ

-- The control memories and the two instructions of the pipeline. `opc` has the pcs of the last
-- eight microcycles, the newest first, and `machine_opc` is `m.opc`.
pub record Pipeline : Type 0 where
  pub imem : ℕ → Insn
  pub prom : ℕ → Insn
  pub p0 : Insn
  pub p0_pc : ℕ
  pub p1 : Insn
  pub p1_pc : ℕ
  pub npc : ℕ
  pub inhibit : Bool
  pub popj : Bool
  pub trap : Bool
  pub oal : Bool
  pub oah : Bool
  pub oa_low : ℕ
  pub oa_high : ℕ
  pub machine_opc : ℕ
  pub opc : List ℕ
  pub opc_ck : Bool
  pub nopped : ℕ
  pub halted : Bool
  pub executed : Option ℕ

pub data WriteOut : Type 0 where
  started next due : WriteOut

-- The memory cycles and the map.
pub record Access : Type 0 where
  pub maps : Maps
  pub vma : ℕ
  pub md : ℕ
  pub vmaok : Bool
  pub new_md : ℕ
  pub new_md_delay : ℕ
  pub map_write : Option (ℕ × ℕ)
  pub map_write_d : Option (ℕ × ℕ)
  pub map_seen : Option Translation
  pub lvmo : ℕ
  pub wrcyc : Bool
  pub memstart : Bool
  pub memop : Bool
  pub write_out : Option (ℕ × WriteOut)

-- The clock. Its times and counts are 64 bits wide, and are taken not to run out.
pub record Clock : Type 0 where
  pub speed : Speed
  pub speed_a : Speed
  pub sync_cycle_ns : ℕ
  pub memory_cycle_ns : ℕ
  pub memory_cycles : ℕ
  pub ns : ℕ
  pub cycles : ℕ
  pub srun : Bool
  pub sstep : Bool
  pub ssdone : Bool

pub record Micro (D : Type 0) : Type 0 where
  pub geometry : Geometry
  pub path : DataPath
  pub pipeline : Pipeline
  pub access : Access
  pub clock : Clock
  pub stack : Stack
  pub pdl : Pdl
  pub counter : Counter
  pub macro_dispatch : MacroDispatch
  pub macro_write : Option (Destination × ℕ)
  pub operand : Option Operand
  pub bus : Bus D

-- `Machine::translate`, of a word's low half.
abbrev pub translated : {D : Type 0} → Micro D → ℕ → Translation
translated m vaddr = translate m.geometry m.access.maps (low_bits vaddr 32)

-- `Micro::ir`
abbrev pub ir : {D : Type 0} → Micro D → ℕ → ℕ → ℕ
ir m pos len = low_bits (m.pipeline.p0.raw >>> pos) len

-- One of two changes, on a test.
abbrev pub either_of :
    {D : Type 0} → Bool → (Micro D → Micro D) → (Micro D → Micro D) → Micro D → Micro D
either_of true f g m = f m
either_of false f g m = g m

-- A change made where a test holds.
abbrev pub when : {D : Type 0} → Bool → (Micro D → Micro D) → Micro D → Micro D
when true f m = f m
when false f m = m
