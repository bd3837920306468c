-- ===== src/Memory/Cycle.antt =====
-- src/clock.rs, `Speed` and `TimingModel`: how long a microcycle is.
pub mod Grid
mod Examples
use muir.Base.{ℕ, ◌+◌, ◌*◌, ◌/◌, ◌%◌, ◌^◌, Bool, true, false, if◌then◌else◌}

pub data Speed : Type 0 where
  extra_slow slow normal fast : Speed

-- `sync` has the ticks of a microcycle and those that an `ILONG` adds.
pub data TimingModel : Type 0 where
  cadr fpga : TimingModel
  sync : ℕ → ℕ → TimingModel

abbrev pub grid_ns : ℕ
grid_ns = 10

abbrev pub restart_after_read_ns : ℕ
restart_after_read_ns = 60

abbrev pub read_phase_ns : Speed → Bool → ℕ
read_phase_ns fast false = 75
read_phase_ns fast true = 115
read_phase_ns normal false = 85
read_phase_ns normal true = 125
read_phase_ns slow false = 100
read_phase_ns slow true = 140
read_phase_ns extra_slow ilong = 160

-- `ns.div_ceil(GRID_NS) * GRID_NS`
abbrev pub tick : TimingModel → ℕ → ℕ
tick cadr ns = ns
tick fpga ns = (ns + 9) / grid_ns * grid_ns
tick (sync _ _) ns = (ns + 9) / grid_ns * grid_ns

-- `TimingModel::triggered`
abbrev pub triggered : TimingModel → ℕ → ℕ
triggered model ns = tick model ns

-- `Speed::cycle_ns`
unfoldable pub board_cycle_ns : Speed → Bool → ℕ
board_cycle_ns speed ilong = read_phase_ns speed ilong + restart_after_read_ns

-- `TimingModel::cycle_ns`
unfoldable pub cycle_ns : TimingModel → Speed → Bool → ℕ
cycle_ns (sync cycle_ticks ilong_ticks) speed ilong =
    (cycle_ticks + (if ilong then ilong_ticks else 0)) * grid_ns
cycle_ns cadr speed ilong =
    triggered cadr (read_phase_ns speed ilong) + triggered cadr restart_after_read_ns
cycle_ns fpga speed ilong =
    triggered fpga (read_phase_ns speed ilong) + triggered fpga restart_after_read_ns
