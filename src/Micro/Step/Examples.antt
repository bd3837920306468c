-- ===== src/Micro/Step/Examples.antt =====
-- A program run from the boot PROM of the CADR, and single steps of it.
use muir.Base.{◌%◌, ◌^◌, ℕ, zero, suc, ◌<◌, ◌≡◌, refl, arith, false, [], ◌∷◌}
use muir.Base.{get_or}
use muir.Base.Memory.{Memory}
use muir.Micro.TestBus.{memory_bus}
use muir.Machine.Geometry.{cadr}
use muir.Processor.Isa.{Insn, insn}
use muir.Micro.Stack.{land_spc}
use muir.Micro.State.{Micro}
use muir.Micro.Port.{write_goes_out}
use muir.Micro.Step.{step, boot, nopped_microcycle, stopped_step}
use muir.Micro.Boot.{new}
use muir.Micro.Step.Ns.{ns}
use muir.Micro.Step.Frame.{core}
use muir.Micro.Step.Range.{IsInRange}
use muir.Memory.Cycle.{board_cycle_ns}
use muir.Micro.Step.Later.{step-later}
use muir.Micro.Step.Invariant.{step-IsInRange}
use muir.Micro.Step.Quiet.{nopped_microcycle-unchanged, stopped_step-unchanged}

-- `n` steps.
unfoldable steps : ℕ → Micro Memory → Micro Memory
unfolding step
steps zero m = m
steps (suc n) m = steps n (step memory_bus m)

-- M 3 gets all ones from the ALU (SETO).
abbrev program : ℕ → Insn
program a = insn (get_or (0 ∷ 0o150170 ∷ 0 ∷ []) a 0)

abbrev started : Micro Memory
started = boot (new cadr program (λ a. 0))

ones : (steps 4 started).path.mmem 3 ≡ 0xffff_ffff
unfolding steps boot new
ones = refl

step-later_example : ns started % 2 ^ 64 < ns (step memory_bus started) % 2 ^ 64
unfolding steps step boot new board_cycle_ns
step-later_example = step-later memory_bus started (omega arith)

step-IsInRange_example : IsInRange (core (step memory_bus started))
unfolding boot new
step-IsInRange_example = step-IsInRange memory_bus started (record {
  reset = omega arith;
  spcptr = omega arith;
  pdl_pointer = omega arith;
  pdl_index = omega arith;
  npc = omega arith;
})

nopped_microcycle-unchanged_example :
    let n = nopped_microcycle memory_bus started in
    (n.path ≡ started.path)
    × (n.stack ≡ land_spc started.stack)
    × (n.pipeline.npc ≡ started.pipeline.npc)
    × (n.pipeline.inhibit ≡ false)
nopped_microcycle-unchanged_example = nopped_microcycle-unchanged memory_bus started

abbrev stopped : Micro Memory
stopped = new cadr program (λ a. 0)

stopped_step-unchanged_example :
    let s = stopped_step memory_bus stopped in
    (s.path ≡ stopped.path)
    × (s.stack ≡ stopped.stack)
    × (s.pdl ≡ stopped.pdl)
    × (s.pipeline.p0 ≡ stopped.pipeline.p0)
    × (s.pipeline.p1 ≡ stopped.pipeline.p1)
    × (s.pipeline.npc ≡ stopped.pipeline.npc)
unfolding new write_goes_out
stopped_step-unchanged_example = stopped_step-unchanged memory_bus stopped refl
