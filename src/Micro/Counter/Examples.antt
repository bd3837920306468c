-- ===== src/Micro/Counter/Examples.antt =====
-- A counter at the start of a word, in byte mode, with its fetch due.
use muir.Base.{◌+◌, ◌*◌, ◌^◌, true, false}
use muir.Micro.Counter.{Counter}

abbrev due : Counter
due = record {
  lc = 2 ^ 31 + 4 * 100;
  interrupt_control = 2 ^ 29;
  next_instr = false;
  next_instrd = true;
}
