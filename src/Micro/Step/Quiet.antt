-- ===== src/Micro/Step/Quiet.antt =====
-- The microcycles in which the processor does nothing.
use muir.Base.{◌≡◌, refl, ap, ◌∙◌, arith, Bool, true, false, ◌||◌}
use muir.Micro.Stack.{land_spc}
use muir.Micro.State.{Devices, Micro, when}
use muir.Micro.Port.{write_goes_out}
use muir.Micro.Edge.{
  mclk_edge, idle_cycle, speedclk, ticked, requests_taken, reset_all, trapped, opc_clock,
  operand_landed,
}
use muir.Micro.Step.{nopped_microcycle, stopped_step, nop_cleared}
use muir.Micro.Operands.{writes_landed}
use muir.Micro.Step.Frame.{Core, core, core-write_goes_out, core-fetch_and_clock}

-- What a nopped microcycle does after its edge leaves the data path's memories and registers and
-- the stack's pointer as they were and the pc as the edge left it, lets the stack's write land, and
-- ends the inhibition.
pub nopped_microcycle-unchanged :
    {D : Type 0} (dev : Devices D) (m : Micro D)
    → let n = nopped_microcycle dev m in
      (n.path ≡ m.path)
      × (n.stack ≡ land_spc m.stack)
      × (n.pipeline.npc ≡ m.pipeline.npc)
      × (n.pipeline.inhibit ≡ false)
unfolding nopped_microcycle operand_landed writes_landed
nopped_microcycle-unchanged dev m =
    let e = core-fetch_and_clock dev (writes_landed (nop_cleared m)) in
    (
      ap (λ (c : Core). c.path) e,
      ap (λ (c : Core). c.stack) e,
      ap (λ (c : Core). c.pipeline.npc) e,
      ap (λ (c : Core). c.pipeline.inhibit) e,
    )

core-reset : {D : Type 0} (b : Bool) (m : Micro D) → core (when b reset_all m) ≡ core m
unfolding reset_all
core-reset true m = refl
core-reset false m = refl

core-untrapped :
    {D : Type 0} (b : Bool) (m : Micro D) → b ≡ false → core (when b trapped m) ≡ core m
core-untrapped true m e = absurd (ground arith)
core-untrapped false m e = refl

core-mclk_edge :
    {D : Type 0} (dev : Devices D) (m : Micro D)
    → m.bus.console.prog_boot ≡ false
    → core (mclk_edge dev m) ≡ core m
unfolding mclk_edge requests_taken
core-mclk_edge dev m e =
    let b = m.bus.console.prog_boot in
    let taken = requests_taken dev m in
    let r = m.bus.console.prog_reset || b in
    core-untrapped b (when r reset_all taken) e ∙ core-reset r taken

core-idle_cycle :
    {D : Type 0} (dev : Devices D) (ilong : Bool) (m : Micro D)
    → m.bus.console.prog_boot ≡ false
    → core (idle_cycle dev ilong m) ≡ core m
unfolding idle_cycle ticked speedclk
core-idle_cycle dev ilong m e = core-mclk_edge dev (ticked ilong (speedclk m)) e

-- With the processor stopped, a step leaves the data path, the microcode stack, the PDL buffer
-- and the instructions of the pipeline as they were, unless the write that went out, if there was
-- one, has the console ask for a boot.
pub stopped_step-unchanged :
    {D : Type 0} (dev : Devices D) (m : Micro D)
    → (write_goes_out dev m).bus.console.prog_boot ≡ false
    → let s = stopped_step dev m in
      (s.path ≡ m.path)
      × (s.stack ≡ m.stack)
      × (s.pdl ≡ m.pdl)
      × (s.pipeline.p0 ≡ m.pipeline.p0)
      × (s.pipeline.p1 ≡ m.pipeline.p1)
      × (s.pipeline.npc ≡ m.pipeline.npc)
unfolding stopped_step opc_clock
stopped_step-unchanged dev m h =
    let e = core-idle_cycle dev false (write_goes_out dev m) h ∙ core-write_goes_out dev m in
    (
      ap (λ (c : Core). c.path) e,
      ap (λ (c : Core). c.stack) e,
      ap (λ (c : Core). c.pdl) e,
      ap (λ (c : Core). c.pipeline.p0) e,
      ap (λ (c : Core). c.pipeline.p1) e,
      ap (λ (c : Core). c.pipeline.npc) e,
    )
