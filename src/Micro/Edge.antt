-- ===== src/Micro/Edge.antt =====
-- src/micro.rs: the clock edges of a microcycle, the pipeline and the old pcs.
use muir.Base.{ℕ, ◌+◌, ◌-◌, Bool, true, false, not, ◌&&◌, ◌||◌, ◌==◌, ltb, leb}
use muir.Base.{◌∷◌, take, if◌then◌else◌, Option, some, none, low_bits}
use muir.Machine.Geometry.{Geometry}
use muir.Machine.Console.{Mode, OpcControl, default_mode, default_opc_control, running}
use muir.Machine.Timer.{power_on}
use muir.Machine.MacroDispatch.{MacroDispatch, Operand, reset, operand_address}
use muir.Memory.Cycle.{Speed, extra_slow, slow, normal, fast, board_cycle_ns}
use muir.Processor.Isa.{Insn, insn}
use muir.Micro.State.{Devices, Micro, Clock, Console, Pipeline, when}
use muir.Micro.Port.{write_goes_out, next_microcycle_holds_the_write, clock_map_write, advance_lc}
use muir.Micro.State.{WriteOut, started, next, due}
use muir.Machine.Geometry.{pdl_masked}

-- `Machine::fetch`: 16K words, the PROM laid over the first 1024 of the CADR's or the last of
-- the others'.
unfoldable pub fetch : Geometry → Bool → Pipeline → ℕ → Insn
fetch g prom_disable p pc =
    let at = low_bits pc 14 in
    elim g.prom_base [
      | some base ↦ if leb base at then p.prom (at - base) else p.imem at
      | none ↦ if prom_disable || not (ltb at 1024) then p.imem at else p.prom at
    ]

abbrev pub reset_pc : Geometry → ℕ
reset_pc g = elim g.prom_base [ none ↦ 0 | some base ↦ base ]

-- `Machine::reset_console_registers`
unfoldable pub reset_console_registers : Console → Console
reset_console_registers c = record c {
  mode = default_mode;
  opc_control = default_opc_control;
  clock_control = running c.clock_control.run;
}

-- What a reset by the console clears.
unfoldable pub reset_all : {D : Type 0} → Micro D → Micro D
unfolding reset_console_registers reset
reset_all m = record m {
  bus = record m.bus { console = reset_console_registers m.bus.console; timers = power_on };
  macro_dispatch = reset m.macro_dispatch;
  access = record m.access { write_out = none };
}

-- The trap that a boot arms: the processor runs from the reset pc, its next word nopped.
unfoldable pub trapped : {D : Type 0} → Micro D → Micro D
trapped m = record m {
  access = record m.access { vmaok = false };
  bus = record m.bus {
    console = record m.bus.console {
      clock_control = record m.bus.console.clock_control { run = true };
    };
  };
  pipeline = record m.pipeline {
    npc = reset_pc m.geometry;
    inhibit = true;
    trap = true;
    oal = false;
    oah = false;
  };
}

-- The devices brought to now, and the console's requests taken.
unfoldable pub requests_taken : {D : Type 0} → Devices D → Micro D → Micro D
requests_taken dev m = record m {
  bus = record m.bus {
    devices = dev.advance m.clock.ns m.bus.devices;
    console = record m.bus.console { prog_boot = false; prog_reset = false };
  };
}

unfoldable pub mclk_edge : {D : Type 0} → Devices D → Micro D → Micro D
unfolding requests_taken reset_all trapped
mclk_edge dev m =
    let boot = m.bus.console.prog_boot in
    let taken = requests_taken dev m in
    let after = when boot trapped (when (m.bus.console.prog_reset || boot) reset_all taken) in
    record after {
      clock = record after.clock {
        ssdone = after.clock.sstep;
        sstep = after.bus.console.clock_control.single_step;
        srun = after.bus.console.clock_control.run;
      };
    }

abbrev pub speed_of : Mode → Speed
speed_of mode =
    if mode.speed1
    then (if mode.speed0 then fast else normal)
    else (if mode.speed0 then slow else extra_slow)

unfoldable pub speedclk : {D : Type 0} → Micro D → Micro D
speedclk m =
    let speeds =
      if m.geometry.speed_bits
      then record m.clock { speed = m.clock.speed_a; speed_a = speed_of m.bus.console.mode }
      else record m.clock { speed = normal; speed_a = normal } in
    record m { clock = speeds }

-- `Micro::cycle_ns`
unfoldable pub microcycle_ns : Clock → Bool → ℕ
microcycle_ns c ilong =
    if ltb 0 c.sync_cycle_ns then c.sync_cycle_ns else board_cycle_ns c.speed ilong

unfoldable pub ticked : {D : Type 0} → Bool → Micro D → Micro D
unfolding microcycle_ns
ticked ilong m = record m {
  clock = record m.clock { ns = m.clock.ns + microcycle_ns m.clock ilong };
}

-- A cycle of the clock generator that no microinstruction has.
unfoldable pub idle_cycle : {D : Type 0} → Devices D → Bool → Micro D → Micro D
unfolding speedclk ticked mclk_edge
idle_cycle dev ilong m = mclk_edge dev (ticked ilong (speedclk m))

unfoldable pub opc_clock : OpcControl → Bool → ℕ → Pipeline → Pipeline
opc_clock o clk5 pc p =
    let ck = o.opcinh || (clk5 && not o.opcclk) in
    record p { opc = if ck && not p.opc_ck then pc ∷ take 7 p.opc else p.opc; opc_ck = ck }

unfoldable pub advanced : Geometry → Console → Pipeline → Pipeline
unfolding fetch opc_clock
advanced g c p =
    let q = record p {
      p0 = if c.clock_control.idebug then insn c.debug_ir else p.p1;
      p0_pc = p.p1_pc;
      p1 = fetch g c.mode.prom_disable p p.npc;
      p1_pc = p.npc;
      npc = if p.npc == 0o37777 then 0 else p.npc + 1;
      machine_opc = p.p1_pc;
    } in
    opc_clock c.opc_control true p.p1_pc (opc_clock c.opc_control false p.p1_pc q)

unfoldable pub advance_pipeline : {D : Type 0} → Micro D → Micro D
unfolding advanced
advance_pipeline m = record m { pipeline = advanced m.geometry m.bus.console m.pipeline }

unfoldable pub operand_index : Geometry → MacroDispatch → Option Operand → ℕ → ℕ
unfolding operand_address
operand_index g d none index = index
operand_index g d (some o) index = pdl_masked g (low_bits (operand_address d o) 16)

-- The operand that a fused return armed, addressing the PDL buffer.
unfoldable pub operand_landed : {D : Type 0} → Micro D → Micro D
unfolding operand_index
operand_landed m =
    let d = m.macro_dispatch in
    let index = operand_index m.geometry d d.armed m.pdl.pdl_index in
    record m {
      pdl = record m.pdl { pdl_index = index };
      macro_dispatch = record d { armed = m.operand };
      operand = none;
    }

abbrev pub with_write : {D : Type 0} → Micro D → ℕ → WriteOut → Micro D
with_write m physical when = record m {
  access = record m.access { write_out = some (physical, when) };
}

-- A write started in this microcycle goes out, or is held for the next.
unfoldable pub started_by :
    {D : Type 0} → Devices D → Bool → Option (ℕ × WriteOut) → Micro D → Micro D
unfolding write_goes_out
started_by dev holds none m = m
started_by dev true (some (physical, started)) m = with_write m physical next
started_by dev false (some (physical, started)) m = write_goes_out dev m
started_by dev holds (some (physical, next)) m = m
started_by dev holds (some (physical, due)) m = m

unfoldable pub started_write : {D : Type 0} → Devices D → Micro D → Micro D
unfolding next_microcycle_holds_the_write started_by
started_write dev m = started_by dev (next_microcycle_holds_the_write m) m.access.write_out m

unfoldable pub due_by : {D : Type 0} → Devices D → Option (ℕ × WriteOut) → Micro D → Micro D
unfolding write_goes_out
due_by dev none m = m
due_by dev (some (physical, started)) m = m
due_by dev (some (physical, next)) m = with_write m physical due
due_by dev (some (physical, due)) m = write_goes_out dev m

unfoldable pub due_write : {D : Type 0} → Devices D → Micro D → Micro D
unfolding due_by
due_write dev m = due_by dev m.access.write_out m

-- `NEXT INSTRD` steps the counter, and takes `NEXT INSTR`.
unfoldable pub next_clocked : {D : Type 0} → Devices D → Micro D → Micro D
unfolding advance_lc
next_clocked dev m =
    let c = if m.counter.next_instrd then advance_lc dev m else m in
    record c {
      counter = record c.counter { next_instrd = c.counter.next_instr; next_instr = false };
    }

unfoldable pub fetch_and_clock : {D : Type 0} → Devices D → Micro D → Micro D
unfolding operand_landed started_write next_clocked due_write
fetch_and_clock dev m =
    due_write dev (clock_map_write (next_clocked dev (started_write dev (operand_landed m))))
