-- ===== src/Micro/Step/Later.antt =====
-- The clock over a step: every step takes time.
use muir.Base.{
  ◌%◌, ◌^◌, ℕ, zero, suc, ◌≤◌, ◌<◌, ◌≡◌, refl, arith, Bool, true, false, none, bit, not, ◌&&◌, ◌||◌,
}
use muir.Memory.Cycle.{Speed, board_cycle_ns}
use muir.Processor.Isa.{m_src_functional, op}
use muir.Micro.State.{Devices, Micro, ir, when}
use muir.Micro.Stack.{begin}
use muir.Micro.Sources.{read_functional, source_of}
use muir.Micro.Edge.{
  speedclk, ticked, microcycle_ns, mclk_edge, requests_taken, reset_all, trapped, idle_cycle,
  advance_pipeline,
}
use muir.Micro.Step.{
  nop_cleared, popj_return, is_nopped, machrun, held_by_divider, div_cycles, idle_cycles,
  stopped_step, nops_passed, edge, nopped_microcycle, execute, halt_set, popj_taken, macro_landed,
  microcycle, run_step, step,
}
use muir.Micro.Operands.{m_side, modified, map_landed, md_landed, operands_read, writes_landed}
use muir.Micro.Port.{write_goes_out, land_map_write}
use muir.Micro.Step.Classes.{
  ns-either, ns-when, lt-either, ns-execute, ns-read_source, ns-popped_return,
}
use muir.Micro.Step.Ns.{ns, ns-write_goes_out, ns-fetch_and_clock}

board_cycle_ns-pos : (s : Speed) (ilong : Bool) → 0 < board_cycle_ns s ilong
unfolding board_cycle_ns
board_cycle_ns-pos s ilong = omega arith

ns-ticked : {D : Type 0} (ilong : Bool) (m : Micro D) → ns m < ns (ticked ilong m)
unfolding ticked microcycle_ns
ns-ticked ilong m = ground (arith, board_cycle_ns-pos m.clock.speed ilong)

ns-speedclk : {D : Type 0} (m : Micro D) → ns (speedclk m) ≡ ns m
unfolding speedclk
ns-speedclk m = ground arith

module _ {D : Type 0} (dev : Devices D) where
  ns-mclk_edge : (m : Micro D) → ns (mclk_edge dev m) ≡ ns m
  unfolding mclk_edge requests_taken reset_all trapped
  ns-mclk_edge m = ground arith

  ns-idle_cycle : (ilong : Bool) (m : Micro D) → ns m < ns (idle_cycle dev ilong m)
  unfolding idle_cycle
  ns-idle_cycle ilong m =
      omega (
        arith,
        ns-mclk_edge (ticked ilong (speedclk m)),
        ns-ticked ilong (speedclk m),
        ns-speedclk m,
      )

  ns-idle_cycles : (ilong : Bool) (n : ℕ) (m : Micro D) → ns m ≤ ns (idle_cycles dev ilong n m)
  unfolding idle_cycles
  ns-idle_cycles ilong zero m = omega arith
  ns-idle_cycles ilong (suc n) m =
      omega (arith, ns-idle_cycles ilong n (idle_cycle dev ilong m), ns-idle_cycle ilong m)

  ns-m_side : (b : Bool) (a : ℕ) (m : Micro D) → ns (m_side b a m).1 ≡ ns m
  unfolding m_side read_functional
  ns-m_side true a m = ns-read_source dev (source_of a) (bit a 4) m
  ns-m_side false a m = refl

  ns-operands_read : (m : Micro D) → ns (operands_read m) ≡ ns m
  unfolding operands_read writes_landed
  ns-operands_read m =
      let p = modified m.pipeline in
      let begun = record m { pipeline = p; stack = begin m.stack; macro_write = none } in
      ns-m_side (m_src_functional p.p0) (ir begun 26 5) begun

  ns-popj_taken : (m : Micro D) → ns m ≤ ns (popj_taken m)
  unfolding popj_taken popj_return
  ns-popj_taken m =
      ns-when m.pipeline.popj popj_return m (omega (arith, ns-popped_return dev false m))

  ns-macro_landed : (m : Micro D) → ns (macro_landed m) ≡ ns m
  unfolding macro_landed
  ns-macro_landed m = ground arith

  ns-microcycle : (m : Micro D) → ns m ≤ ns (microcycle dev m)
  unfolding microcycle
  ns-microcycle m =
      let r = operands_read m in
      let e = execute (op r.pipeline.p0) dev r in
      let p = popj_taken (halt_set e) in
      omega (
        arith,
        ns-operands_read m,
        ns-execute dev (op r.pipeline.p0) r,
        ns-popj_taken (halt_set e),
        ns-macro_landed p,
        ns-fetch_and_clock dev (macro_landed p),
      )

  ns-nopped_microcycle : (m : Micro D) → ns m ≤ ns (nopped_microcycle dev m)
  unfolding nopped_microcycle writes_landed
  ns-nopped_microcycle m = ns-fetch_and_clock dev (writes_landed (nop_cleared m))

  ns-edge : (m : Micro D) → ns m < ns (edge dev m)
  unfolding edge advance_pipeline
  ns-edge m =
      let s = speedclk m in
      let nopa = (s.pipeline.inhibit && not s.pipeline.trap) || s.bus.console.clock_control.nop11 in
      let ilong = not nopa && bit s.pipeline.p1.raw 45 in
      let begun = record s { pipeline = record s.pipeline { trap = false } } in
      let held = held_by_divider begun nopa in
      let wait = λ (h : Micro D). idle_cycles dev ilong div_cycles (write_goes_out dev h) in
      let waited = when held wait begun in
      omega (
        arith,
        ns-speedclk m,
        ns-idle_cycles ilong div_cycles (write_goes_out dev begun),
        ns-write_goes_out dev begun,
        ns-when held wait begun (
            omega (
              arith,
              ns-idle_cycles ilong div_cycles (write_goes_out dev begun),
              ns-write_goes_out dev begun,
            )),
        ns-ticked ilong waited,
        ns-mclk_edge (ticked ilong waited),
      )

  ns-map_landed : (m : Micro D) → ns (md_landed (map_landed m)) ≡ ns m
  unfolding md_landed map_landed land_map_write
  ns-map_landed m = ground arith

  ns-run_step : (m : Micro D) → ns m < ns (run_step dev m)
  unfolding run_step nops_passed
  ns-run_step m =
      let n = nops_passed dev m in
      let e = md_landed (map_landed (edge dev n)) in
      omega (
        arith,
        ns-idle_cycles false m.pipeline.nopped m,
        ns-edge n,
        ns-map_landed (edge dev n),
        ns-either (is_nopped e) (nopped_microcycle dev) (microcycle dev) e (ns-nopped_microcycle e)
            (ns-microcycle e),
      )

  ns-stopped_step : (m : Micro D) → ns m < ns (stopped_step dev m)
  unfolding stopped_step
  ns-stopped_step m =
      omega (arith, ns-write_goes_out dev m, ns-idle_cycle false (write_goes_out dev m))

  ns-step : (m : Micro D) → ns m < ns (step dev m)
  unfolding step
  ns-step m =
      let b = record m { pipeline = record m.pipeline { executed = none } } in
      lt-either (machrun b) (run_step dev) (stopped_step dev) b (ns-run_step b) (ns-stopped_step b)

  -- The clock's 64 bits are later after a step than before it, with the processor running, nopped
  -- or stopped, where the times that the step adds do not take the clock to 2^64.
  pub step-later :
      (m : Micro D) → ns (step dev m) < 2 ^ 64 → ns m % 2 ^ 64 < ns (step dev m) % 2 ^ 64
  step-later m h = omega (arith, ns-step m)
