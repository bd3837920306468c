-- ===== src/Micro/Step.antt =====
-- src/micro.rs, `boot` and `step`: a microcycle of the engine.
pub mod Ns
pub mod Classes
pub mod Range
pub mod Transfers
pub mod Invariant
pub mod Quiet
pub mod Timing
pub mod Later
pub mod Frame
mod Examples
use muir.Base.{
  ℕ, zero, suc, ◌+◌, ◌-◌, ◌*◌, ◌/◌, ◌%◌, ◌^◌, bit_or, Bool, true, false, not, ◌&&◌, ◌||◌,
}
use muir.Base.{◌==◌, bit, if◌then◌else◌, Option, some, none, ◌<<<◌, ◌>>>◌, low_bits}
use muir.Machine.Geometry.{Geometry, wide}
use muir.Machine.Map.{Translation}
use muir.Machine.MacroDispatch.{MacroDispatch, Destination, write}
use muir.Processor.Isa.{
  Insn, insn, op, Op, alu_class, jump_class, dispatch_class, byte_class, m_src_functional, popj,
}
use muir.Processor.Muldiv
use muir.Processor.Muldiv.{decode, mul, div}
use muir.Micro.Stack.{land_spc, begin}
use muir.Micro.Pdl.{land_pdl}
use muir.Micro.State.{
  Devices, Micro, DataPath, Pipeline, Access, Clock, Console, ir, translated, when, either_of,
}
use muir.Micro.Port.{write_goes_out, land_map_write, map_address}
use muir.Micro.Operands.{
  kept_when, map_landed, md_landed, writes_landed, modified, m_side, operands_read,
}
use muir.Micro.Sources.{read_functional}
use muir.Micro.Arithmetic.{alu_class_step}
use muir.Micro.Bytes.{byte_class_step}
use muir.Micro.Jumps.{jump_class_step, main_loop_return, popped_return}
use muir.Micro.Dispatch.{dispatch_class_step}
use muir.Micro.Edge.{
  speedclk, ticked, mclk_edge, idle_cycle, opc_clock, advance_pipeline, fetch_and_clock, reset_all,
  trapped,
}

abbrev pub div_cycles : ℕ
div_cycles = 9

-- The console registers are reset with `run` set, so the clock runs from the first cycle.
unfoldable pub boot : {D : Type 0} → Micro D → Micro D
unfolding reset_all trapped
boot m = let b = trapped (reset_all m) in record b { clock = record b.clock { srun = true } }

-- `m` after `n` cycles of the clock generator.
unfoldable pub idle_cycles : {D : Type 0} → Devices D → Bool → ℕ → Micro D → Micro D
unfolding idle_cycle
idle_cycles dev ilong zero m = m
idle_cycles dev ilong (suc n) m = idle_cycles dev ilong n (idle_cycle dev ilong m)

-- `MACHRUN`: the clock is let through to the processor.
unfoldable pub machrun : {D : Type 0} → Micro D → Bool
machrun m =
    let c = m.clock in
    let errhalt = m.bus.console.mode.errstop && m.pipeline.halted in
    (c.sstep && not c.ssdone) || (c.srun && not errhalt)

abbrev pub with_opc_clock : {D : Type 0} → Micro D → Micro D
with_opc_clock m = record m {
  pipeline = opc_clock m.bus.console.opc_control true m.pipeline.p1_pc m.pipeline;
}

unfoldable pub stopped_step : {D : Type 0} → Devices D → Micro D → Micro D
unfolding write_goes_out idle_cycle
stopped_step dev m = with_opc_clock (idle_cycle dev false (write_goes_out dev m))

-- The microcycles that a jump's write of the control memory nops.
unfoldable pub nops_passed : {D : Type 0} → Devices D → Micro D → Micro D
unfolding idle_cycles
nops_passed dev m =
    let p = idle_cycles dev false m.pipeline.nopped m in
    record p { pipeline = record p.pipeline { nopped = 0 } }

abbrev pub is_nopped : {D : Type 0} → Micro D → Bool
is_nopped m = m.pipeline.inhibit || m.bus.console.clock_control.nop11

abbrev pub divides : Option Muldiv.Op → Bool
divides none = false
divides (some mul) = false
divides (some div) = true

-- Whether the divider holds the microcycle off.
unfoldable pub held_by_divider : {D : Type 0} → Micro D → Bool → Bool
unfolding decode
held_by_divider m nopa =
    let stepping = m.clock.sstep && not m.clock.ssdone in
    m.geometry.has_muldiv && not nopa && not stepping && divides (decode m.pipeline.p1.raw)

-- Whether the word in the pipeline will be nopped.
abbrev pub nopa : {D : Type 0} → Micro D → Bool
nopa m = (m.pipeline.inhibit && not m.pipeline.trap) || m.bus.console.clock_control.nop11

abbrev pub edge_begun : {D : Type 0} → Micro D → Micro D
edge_begun m = let s = speedclk m in record s { pipeline = record s.pipeline { trap = false } }

abbrev pub held : {D : Type 0} → Micro D → Bool
held m = held_by_divider (edge_begun m) (nopa (speedclk m))

-- The microcycle's own edge.
unfoldable pub edge : {D : Type 0} → Devices D → Micro D → Micro D
unfolding speedclk held_by_divider write_goes_out idle_cycles ticked mclk_edge advance_pipeline
edge dev m =
    let s = speedclk m in
    let ilong = not (nopa s) && bit s.pipeline.p1.raw 45 in
    let waited =
      when (held m) (λ h. idle_cycles dev ilong div_cycles (write_goes_out dev h)) (edge_begun m) in
    advance_pipeline (mclk_edge dev (ticked ilong waited))

abbrev pub counted : {D : Type 0} → Micro D → Micro D
counted m = record m { clock = record m.clock { cycles = m.clock.cycles + 1 } }

abbrev pub nop_cleared : {D : Type 0} → Micro D → Micro D
nop_cleared m = record m {
  pipeline = record m.pipeline { inhibit = false; oal = false; oah = false; halted = false };
}

unfoldable pub nopped_microcycle : {D : Type 0} → Devices D → Micro D → Micro D
unfolding writes_landed fetch_and_clock
nopped_microcycle dev m = counted (fetch_and_clock dev (writes_landed (nop_cleared m)))

unfoldable pub execute : {D : Type 0} → Op → Devices D → Micro D → Micro D
unfolding alu_class_step jump_class_step dispatch_class_step byte_class_step
execute alu_class dev m = alu_class_step dev m
execute jump_class dev m = jump_class_step dev m
execute dispatch_class dev m = dispatch_class_step dev m
execute byte_class dev m = byte_class_step dev m

abbrev pub is_byte : Op → Bool
is_byte byte_class = true
is_byte alu_class = false
is_byte jump_class = false
is_byte dispatch_class = false

abbrev pub halt_set : {D : Type 0} → Micro D → Micro D
halt_set m =
    let byte_13 = wide m.geometry && is_byte (op m.pipeline.p0) in
    record m { pipeline = record m.pipeline { halted = ir m 10 2 == 1 && not byte_13 } }

-- The return that `POPJ` asks for.
unfoldable pub popj_return : {D : Type 0} → Micro D → Micro D
unfolding main_loop_return popped_return
popj_return m =
    let (t, popped) = popped_return (λ p w. main_loop_return p w false) m in
    record popped { pipeline = record popped.pipeline { npc = low_bits t 14 } }

-- `POPJ`, where nothing has taken it.
unfoldable pub popj_taken : {D : Type 0} → Micro D → Micro D
unfolding popj_return
popj_taken m = when m.pipeline.popj popj_return m

unfoldable pub macro_landed : {D : Type 0} → Micro D → Micro D
unfolding write
macro_landed m = elim m.macro_write [
  | none ↦ m
  | some (code, word) ↦ record m {
    macro_dispatch = write m.macro_dispatch code word;
    macro_write = none;
  }
]

unfoldable pub microcycle : {D : Type 0} → Devices D → Micro D → Micro D
unfolding operands_read execute popj_taken macro_landed fetch_and_clock
microcycle dev m =
    let r = operands_read m in
    let done = halt_set (execute (op r.pipeline.p0) dev r) in
    counted (fetch_and_clock dev (macro_landed (popj_taken done)))

unfoldable pub run_step : {D : Type 0} → Devices D → Micro D → Micro D
unfolding nops_passed edge map_landed md_landed nopped_microcycle microcycle
run_step dev m =
    let e = md_landed (map_landed (edge dev (nops_passed dev m))) in
    either_of (is_nopped e) (nopped_microcycle dev) (microcycle dev) e

unfoldable pub step : {D : Type 0} → Devices D → Micro D → Micro D
unfolding machrun stopped_step run_step
step dev m =
    let b = record m { pipeline = record m.pipeline { executed = none } } in
    either_of (machrun b) (run_step dev) (stopped_step dev) b
