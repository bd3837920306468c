-- ===== src/Micro/Step/Invariant.antt =====
-- The ranges of the engine's pointers, over a step.
use muir.Base.{ℕ, zero, suc, ◌+◌, ◌^◌, ◌<◌, ◌≡◌, arith, Bool, true, false}
use muir.Base.{Option, some, none, bit, not, ◌&&◌, ◌||◌, if◌then◌else◌, ◌==◌}
use muir.Machine.Geometry.{Geometry}
use muir.Machine.MacroDispatch.{MacroDispatch, Operand}
use muir.Processor.Isa.{op, m_src_functional}
use muir.Micro.Stack.{Stack, begin, land_spc}
use muir.Micro.Pdl.{Pdl, land_pdl}
use muir.Micro.State.{Devices, Micro, ir, when}
use muir.Micro.Sources.{
  Source, dispatch_source, spc_source, pointer_source, index_source, pdl_pop, pdl_source,
  opc_source, q_source, vma_source, map_source, md_source, lc_source, spc_pop, timer_source,
  id_source, open_source, read_source, read_functional, source_of,
}
use muir.Micro.Port.{write_goes_out}
use muir.Micro.Edge.{
  operand_landed, operand_index, speedclk, ticked, mclk_edge, requests_taken, reset_all, trapped,
  idle_cycle, advance_pipeline, advanced, opc_clock, fetch_and_clock,
}
use muir.Micro.Step.{
  idle_cycles, stopped_step, nops_passed, edge, nopped_microcycle, nop_cleared, execute, halt_set,
  popj_taken, popj_return, macro_landed, microcycle, run_step, step, is_nopped, machrun,
  held_by_divider, div_cycles,
}
use muir.Micro.Operands.{map_landed, md_landed, operands_read, writes_landed, m_side, modified}
use muir.Micro.Step.Frame.{
  core, core-write_goes_out, core-fetch_and_clock, core-map_landed, core-md_landed,
}
use muir.Micro.Step.Range.{
  IsInRange, moved, with_stack, with_path, with_npc, with_pdl, when-IsInRange, either-IsInRange,
  low_bits-lt,
}
use muir.Micro.Step.Transfers.{popped_return-IsInRange, execute-IsInRange}

land_spc-spcptr : (s : Stack) → (land_spc s).spcptr ≡ s.spcptr
unfolding land_spc
land_spc-spcptr s = ground arith

land_pdl-pointer : (b : Pdl) → (land_pdl b).pdl_pointer ≡ b.pdl_pointer
unfolding land_pdl
land_pdl-pointer b = ground arith

land_pdl-index : (b : Pdl) → (land_pdl b).pdl_index ≡ b.pdl_index
unfolding land_pdl
land_pdl-index b = ground arith

operand_index-lt :
    (g : Geometry) (d : MacroDispatch) (o : Option Operand) (i : ℕ)
    → i < 2 ^ g.pdl_bits
    → operand_index g d o i < 2 ^ g.pdl_bits
unfolding operand_index
operand_index-lt g d none i h = h
operand_index-lt g d (some o) i h = low_bits-lt _ g.pdl_bits

next_pc-lt : (n : ℕ) → n < 2 ^ 14 → (if n == 0o37777 then 0 else n + 1) < 2 ^ 14
next_pc-lt n h = ground arith

module _ {D : Type 0} where
  writes_landed-IsInRange : (m : Micro D) → IsInRange (core m) → IsInRange (core (writes_landed m))
  unfolding writes_landed
  writes_landed-IsInRange m h = record {
    reset = h.reset;
    spcptr = ground (arith, land_spc-spcptr m.stack, h.spcptr);
    pdl_pointer = ground (arith, land_pdl-pointer m.pdl, h.pdl_pointer);
    pdl_index = ground (arith, land_pdl-index m.pdl, h.pdl_index);
    npc = h.npc;
  }

  operand_landed-IsInRange :
      (m : Micro D) → IsInRange (core m) → IsInRange (core (operand_landed m))
  unfolding operand_landed
  operand_landed-IsInRange m h =
      let d = m.macro_dispatch in
      with_pdl _ h h.pdl_pointer (operand_index-lt m.geometry d d.armed m.pdl.pdl_index h.pdl_index)

  read_source-IsInRange :
      (s : Source) (b : Bool) (m : Micro D)
      → IsInRange (core m)
      → IsInRange (core (read_source s b m).1)
  unfolding read_source
  read_source-IsInRange dispatch_source b m h = h
  read_source-IsInRange spc_source b m h = h
  read_source-IsInRange pointer_source b m h = h
  read_source-IsInRange index_source b m h = h
  read_source-IsInRange pdl_pop b m h = with_pdl _ h (low_bits-lt _ m.geometry.pdl_bits) h.pdl_index
  read_source-IsInRange pdl_source b m h = h
  read_source-IsInRange opc_source b m h = h
  read_source-IsInRange q_source b m h = h
  read_source-IsInRange vma_source b m h = h
  read_source-IsInRange map_source b m h = h
  read_source-IsInRange md_source b m h = h
  read_source-IsInRange lc_source b m h = h
  read_source-IsInRange spc_pop b m h = with_stack _ h (low_bits-lt _ 5)
  read_source-IsInRange timer_source b m h = h
  read_source-IsInRange id_source b m h = h
  read_source-IsInRange open_source b m h = h

  m_side-IsInRange :
      (b : Bool) (a : ℕ) (m : Micro D) → IsInRange (core m) → IsInRange (core (m_side b a m).1)
  unfolding m_side read_functional
  m_side-IsInRange true a m h = read_source-IsInRange (source_of a) (bit a 4) m h
  m_side-IsInRange false a m h = h

  operands_read-IsInRange : (m : Micro D) → IsInRange (core m) → IsInRange (core (operands_read m))
  unfolding operands_read modified
  operands_read-IsInRange m h =
      let p = modified m.pipeline in
      let begun = record m { pipeline = p; stack = begin m.stack; macro_write = none } in
      let read = m_side (m_src_functional p.p0) (ir begun 26 5) begun in
      writes_landed-IsInRange (record read.1 { path = _ })
        (with_path _ (
          m_side-IsInRange (m_src_functional p.p0) (ir begun 26 5) begun
            (with_npc _ (with_stack _ h h.spcptr) h.npc)))

  -- A fetch's next pc is in range.
  advance_pipeline-IsInRange :
      (m : Micro D) → IsInRange (core m) → IsInRange (core (advance_pipeline m))
  unfolding advance_pipeline advanced opc_clock
  advance_pipeline-IsInRange m h = with_npc _ h (next_pc-lt m.pipeline.npc h.npc)

  speedclk-IsInRange : (m : Micro D) → IsInRange (core m) → IsInRange (core (speedclk m))
  unfolding speedclk
  speedclk-IsInRange m h = h

  macro_landed-core : (m : Micro D) → core (macro_landed m) ≡ core m
  unfolding macro_landed
  macro_landed-core m = ground arith

module _ {D : Type 0} (dev : Devices D) where
  mclk_edge-IsInRange : (m : Micro D) → IsInRange (core m) → IsInRange (core (mclk_edge dev m))
  unfolding mclk_edge requests_taken reset_all trapped
  mclk_edge-IsInRange m h =
      let taken = requests_taken dev m in
      let boot = m.bus.console.prog_boot in
      let resets = m.bus.console.prog_reset || boot in
      when-IsInRange boot trapped (when resets reset_all taken)
        (when-IsInRange resets reset_all taken h (λ k. k)) (λ k. with_npc _ k k.reset)

  idle_cycle-IsInRange :
      (ilong : Bool) (m : Micro D) → IsInRange (core m) → IsInRange (core (idle_cycle dev ilong m))
  unfolding idle_cycle ticked
  idle_cycle-IsInRange ilong m h = mclk_edge-IsInRange (ticked ilong (speedclk m)) h

  idle_cycles-IsInRange :
      (ilong : Bool) (n : ℕ) (m : Micro D)
      → IsInRange (core m)
      → IsInRange (core (idle_cycles dev ilong n m))
  unfolding idle_cycles
  idle_cycles-IsInRange ilong zero m h = h
  idle_cycles-IsInRange ilong (suc n) m h =
      idle_cycles-IsInRange ilong n (idle_cycle dev ilong m) (idle_cycle-IsInRange ilong m h)

  popj_taken-IsInRange : (m : Micro D) → IsInRange (core m) → IsInRange (core (popj_taken m))
  unfolding popj_taken popj_return
  popj_taken-IsInRange m h =
      when-IsInRange m.pipeline.popj popj_return m h
        (λ k. with_npc _ (popped_return-IsInRange dev false m k) (low_bits-lt _ 14))

  clocked-IsInRange : (m : Micro D) → IsInRange (core m) → IsInRange (core (fetch_and_clock dev m))
  clocked-IsInRange m h = moved (core-fetch_and_clock dev m) (operand_landed-IsInRange m h)

  microcycle-IsInRange : (m : Micro D) → IsInRange (core m) → IsInRange (core (microcycle dev m))
  unfolding microcycle
  microcycle-IsInRange m h =
      let r = operands_read m in
      let e = execute (op r.pipeline.p0) dev r in
      let he = execute-IsInRange dev (op r.pipeline.p0) r (operands_read-IsInRange m h) in
      let p = popj_taken (halt_set e) in
      clocked-IsInRange (macro_landed p)
        (moved (macro_landed-core p) (popj_taken-IsInRange (halt_set e) (with_npc _ he he.npc)))

  nopped_microcycle-IsInRange :
      (m : Micro D) → IsInRange (core m) → IsInRange (core (nopped_microcycle dev m))
  unfolding nopped_microcycle
  nopped_microcycle-IsInRange m h =
      clocked-IsInRange (writes_landed (nop_cleared m))
        (writes_landed-IsInRange (nop_cleared m) (with_npc _ h h.npc))

  edge-IsInRange : (m : Micro D) → IsInRange (core m) → IsInRange (core (edge dev m))
  unfolding edge ticked
  edge-IsInRange m h =
      let s = speedclk m in
      let nopa = (s.pipeline.inhibit && not s.pipeline.trap) || s.bus.console.clock_control.nop11 in
      let ilong = not nopa && bit s.pipeline.p1.raw 45 in
      let begun = record s { pipeline = record s.pipeline { trap = false } } in
      let hs = speedclk-IsInRange m h in
      let wait = λ (w : Micro D). idle_cycles dev ilong div_cycles (write_goes_out dev w) in
      let waited = when (held_by_divider begun nopa) wait begun in
      let hw = when-IsInRange (held_by_divider begun nopa) wait begun (with_npc _ hs hs.npc) (λ k.
        idle_cycles-IsInRange ilong div_cycles (write_goes_out dev begun)
          (moved (core-write_goes_out dev begun) k)) in
      let t = mclk_edge dev (ticked ilong waited) in
      advance_pipeline-IsInRange t (mclk_edge-IsInRange (ticked ilong waited) hw)

  run_step-IsInRange : (m : Micro D) → IsInRange (core m) → IsInRange (core (run_step dev m))
  unfolding run_step nops_passed
  run_step-IsInRange m h =
      let hn = idle_cycles-IsInRange false m.pipeline.nopped m h in
      let n = nops_passed dev m in
      let he = edge-IsInRange n (with_npc _ hn hn.npc) in
      let l = map_landed (edge dev n) in
      let hl = moved (core-md_landed l) (moved (core-map_landed (edge dev n)) he) in
      let e = md_landed l in
      either-IsInRange (is_nopped e) (nopped_microcycle dev) (microcycle dev) e
        (nopped_microcycle-IsInRange e hl) (microcycle-IsInRange e hl)

  stopped_step-IsInRange :
      (m : Micro D) → IsInRange (core m) → IsInRange (core (stopped_step dev m))
  unfolding stopped_step opc_clock
  stopped_step-IsInRange m h =
      let w = write_goes_out dev m in
      let hw = idle_cycle-IsInRange false w (moved (core-write_goes_out dev m) h) in
      with_npc _ hw hw.npc

  -- A step keeps the pointers in range: the stack's under 32, the PDL buffer's two in the
  -- geometry's bits, the pc in fourteen, for a geometry whose reset pc is.
  pub step-IsInRange : (m : Micro D) → IsInRange (core m) → IsInRange (core (step dev m))
  unfolding step
  step-IsInRange m h =
      let b = record m { pipeline = record m.pipeline { executed = none } } in
      let hb = with_npc _ h h.npc in
      either-IsInRange (machrun b) (run_step dev) (stopped_step dev) b (run_step-IsInRange b hb)
        (stopped_step-IsInRange b hb)
