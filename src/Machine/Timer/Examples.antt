-- ===== src/Machine/Timer/Examples.antt =====
-- A millisecond timer.
use muir.Base.{[], ◌∷◌, true, false}
use muir.Base.{refl, arith}
use muir.Machine.Timer.{IntervalTimer, never}
use muir.Machine.Timer.{write_control}
use muir.Machine.Timer.Grid.{rises-OnGrid, OnGrid, writes}

abbrev running : IntervalTimer
running = record {
  on = true;
  one_shot = false;
  interrupt_enable = true;
  period_us = 1000;
  deadline_ns = 1_000_000;
}

abbrev stopped : IntervalTimer
stopped = record running { on = false; deadline_ns = never }

rises-OnGrid_example :
    OnGrid 7 1_000_000 (writes (write_control stopped 7 0b1) ((2_500_000, 3) ∷ []))
rises-OnGrid_example =
    rises-OnGrid stopped 7 1 ((2_500_000, 3) ∷ []) refl (omega arith) refl refl (omega arith)
      (refl, omega arith, tt)
