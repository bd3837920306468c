-- ===== src/Memory/Cycle/Grid.antt =====
-- The grid against the board's own time.
use muir.Base.{◌+◌, ◌%◌, ◌≤◌, ◌<◌, Bool, ◌≡◌, arith}
use muir.Memory.Cycle.{Speed, extra_slow, slow, normal, fast, cadr, fpga, cycle_ns}
use muir.Memory.Cycle.{board_cycle_ns}

-- The CADR's model keeps the board's microcycle; the grid's is a whole number of ticks, no shorter
-- than the board's and less than a tick longer, at every speed, `ILONG` or not.
pub cycle_ns-grid :
    (speed : Speed) (ilong : Bool)
    → (cycle_ns cadr speed ilong ≡ board_cycle_ns speed ilong)
      × (cycle_ns fpga speed ilong % 10 ≡ 0)
      × (board_cycle_ns speed ilong ≤ cycle_ns fpga speed ilong)
      × (cycle_ns fpga speed ilong < board_cycle_ns speed ilong + 10)
unfolding cycle_ns board_cycle_ns
cycle_ns-grid extra_slow ilong = ground arith
cycle_ns-grid slow ilong = ground arith
cycle_ns-grid normal ilong = ground arith
cycle_ns-grid fast ilong = ground arith
