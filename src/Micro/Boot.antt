-- ===== src/Micro/Boot.antt =====
-- src/micro.rs, `Micro::new`, on src/machine.rs, `Machine::with_geometry`: the engine before it
-- is booted.
use muir.Base.{ℕ, ◌*◌, Bool, true, false, Option, some, none, if◌then◌else◌, replicate}
use muir.Machine.Geometry.{Geometry, lvmo_at_power_on}
use muir.Machine.Console.{default_mode, default_opc_control, running}
use muir.Machine.Timer.{power_on}
use muir.Memory.Cycle.{extra_slow, grid_ns}
use muir.Processor.Isa.{Insn, insn}
use muir.Micro.State.{Micro, Console, DataPath, Pipeline, Access, Clock}

-- `MEMORY_ACCESS_NS`
abbrev pub memory_access_ns : ℕ
memory_access_ns = 520

abbrev pub sync_cycle_ticks : ℕ
sync_cycle_ticks = 4

abbrev pub new_console : Console
new_console = record {
  mode = default_mode;
  clock_control = running false;
  opc_control = default_opc_control;
  debug_ir = 0;
  prog_reset = false;
  prog_boot = false;
}

abbrev pub new_path : DataPath
new_path = record {
  amem = λ a. 0;
  mmem = λ a. 0;
  dmem = λ a. 0;
  q = 0;
  overflow = false;
  dispatch_constant = 0;
  aaddr = 0;
  maddr = 0;
  adata = 0;
  mdata = 0;
  alu_out = 0;
  old_q = 0;
  out = 0;
  iwr = 0;
}

abbrev pub new_pipeline : (ℕ → Insn) → Pipeline
new_pipeline prom = record {
  imem = λ a. insn 0;
  prom = prom;
  p0 = insn 0;
  p0_pc = 0;
  p1 = insn 0;
  p1_pc = 0;
  npc = 0;
  inhibit = false;
  popj = false;
  trap = false;
  oal = false;
  oah = false;
  oa_low = 0;
  oa_high = 0;
  machine_opc = 0;
  opc = replicate 8 0;
  opc_ck = false;
  nopped = 0;
  halted = false;
  executed = none;
}

abbrev pub new_access : Geometry → Access
new_access g = record {
  maps = record { l1_map = λ a. 0; l2_map = λ a. 0 };
  vma = 0;
  md = 0;
  vmaok = true;
  new_md = 0;
  new_md_delay = 0;
  map_write = none;
  map_write_d = none;
  map_seen = none;
  lvmo = lvmo_at_power_on g;
  wrcyc = false;
  memstart = false;
  memop = false;
  write_out = none;
}

abbrev pub is_some : Option ℕ → Bool
is_some none = false
is_some (some v) = true

abbrev pub new_clock : Geometry → Clock
new_clock g = record {
  speed = extra_slow;
  speed_a = extra_slow;
  sync_cycle_ns = if is_some g.machine_id then sync_cycle_ticks * grid_ns else 0;
  memory_cycle_ns = memory_access_ns;
  memory_cycles = 0;
  ns = 0;
  cycles = 0;
  srun = false;
  sstep = false;
  ssdone = false;
}

-- A machine with the boot PROM in, the memories clear.
unfoldable pub new : {D : Type 0} → Geometry → (ℕ → Insn) → D → Micro D
unfolding lvmo_at_power_on
new g prom devices = record {
  geometry = g;
  path = new_path;
  pipeline = new_pipeline prom;
  access = new_access g;
  clock = new_clock g;
  stack = record {
    spcptr = 0;
    spc = λ a. 0;
    spc_write = none;
    pushed = false;
    spc_pushed = false;
    spc_popped = false;
  };
  pdl = record { buffer = λ a. 0; pdl_pointer = 0; pdl_index = 0; pdl_write = none };
  counter = record { lc = 0; interrupt_control = 0; next_instr = false; next_instrd = false };
  macro_dispatch = record {
    register = 0;
    index = 0;
    entries = λ a. 0;
    localp = 0;
    ap = 0;
    armed = none;
    m31 = none;
  };
  macro_write = none;
  operand = none;
  bus = record { console = new_console; timers = power_on; devices = devices };
}
