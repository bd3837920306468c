-- ===== src/Micro/Conditions/Examples.antt =====
-- A jump if M is less than A, on minus one and one.
use muir.Base.{◌-◌, ◌^◌, ◌≡◌, refl, arith, true, false}
use muir.Micro.Boot.{new_path}
use muir.Micro.State.{DataPath}
use muir.Micro.Counter.{Counter}
use muir.Micro.Conditions.{Signals, condition_narrow}
use muir.Micro.Conditions.Compare.{condition_narrow-compare}

abbrev quiet : Signals
quiet = record { vmaok = true; pending = false; sequence_break = false }

abbrev counter : Counter
counter = record { lc = 0; interrupt_control = 0; next_instr = false; next_instrd = false }

abbrev minus_one : DataPath
minus_one = record new_path { mdata = 2 ^ 32 - 1; adata = 1 }

condition_narrow-compare_example : (condition_narrow counter quiet minus_one 0b100001).0 ≡ true
condition_narrow-compare_example =
    condition_narrow-compare counter quiet minus_one 0b100001 refl (omega arith) (omega arith)
