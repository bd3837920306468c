-- ===== src/Machine/Saves/Examples.antt =====
-- A CADR's head, saved and loaded.
use muir.Base.{ℕ, zero, ◌^◌, ◌<◌, ◌≤◌, ◌≡◌, refl, arith, false, true, none, some, List, []}
use muir.Base.{◌∷◌, All, length, length-replicate, All-replicate, All-take, replicate, take}
use muir.Base.{length-take_of_le, ◌++◌, ◌-◌}
use muir.Base.Memory.{table-All}
use muir.Checkpoint.{ok}
use muir.Checkpoint.Writer.{new}
use muir.Checkpoint.Codec.{Saves, to_the_end, reader}
use muir.Machine.Geometry.{cadr, wide}
use muir.Machine.Timer.{power_on, host}
use muir.Machine.Timer.Saves.{IsTimer}
use muir.Machine.FileDevice.{FileDevice}
use muir.Machine.MacroDispatch.{MacroDispatch, entries_count}
use muir.Machine.MacroDispatch.Saves.{IsHeld as IsHeldDispatch}
use muir.Micro.Boot.{new_console}
use muir.Processor.Isa.{insn}
use muir.Machine.Saves.{save_to_geometry, load_to_geometry}
use muir.Machine.Saves.State.{Head, Arrays, geometry_of}
use muir.Machine.Saves.Parts.{ArraysHeld}
use muir.Machine.Saves.Loaded.{IsLoaded, load_to_geometry-IsLoaded}
use muir.Machine.Saves.RoundTrip.{IsHeld, loaded_over, Saves-head, load_to_geometry-save}

-- A memory of zeros.
zeros : ℕ → List ℕ
zeros n = replicate n 0

length-zeros : (n : ℕ) → length (zeros n) ≡ n
unfolding zeros
length-zeros n = length-replicate n zero

zeros-All : (P : ℕ → Type 0) (n : ℕ) → P 0 → All P (zeros n)
unfolding zeros
zeros-All P n h = All-replicate P n zero h

abbrev arrays : Arrays
arrays = record {
  amem = 1 ∷ 2 ∷ [];
  mmem = 3 ∷ [];
  dmem = zeros 4096;
  pdl = 4 ∷ [];
  spc = 5 ∷ [];
  l1_map = zeros 8192;
}

abbrev dispatch : MacroDispatch
dispatch = record {
  register = 0;
  index = 0o17;
  entries = λ i. 0;
  localp = 6;
  ap = 7;
  armed = none;
  m31 = none;
}

-- A command taken from the file device's ring.
abbrev files : FileDevice
files = record {
  enabled = true;
  interrupt_enable = false;
  refused = false;
  index_fault = true;
  cmd_base = 0x1000;
  cmd_log2 = 8;
  resp_base = 0x2000;
  resp_log2 = 3;
  cmd_prod = 2;
  cmd_cons = 1;
  resp_cons = 0;
  head_due = some 77;
}

abbrev machine : Head
machine = record {
  prom = insn 8 ∷ [];
  imem = insn 9 ∷ [];
  console = new_console;
  arrays = arrays;
  pointers = record { spcptr = 0o37; pdl_pointer = 0o1777; pdl_index = 0 };
  registers = record {
    q = 10;
    opc = 11;
    lc = 12;
    vma = 13;
    md = 14;
    interrupt_control = 15;
    dispatch_constant = 16;
  };
  geometry = cadr;
  overflow = false;
  timers = power_on;
  macro_dispatch = dispatch;
  rtc = host;
  file_device = files;
  dma_written = true;
}

first_zeros : (k n : ℕ) → k ≤ n → length (take k (zeros n)) ≡ k
first_zeros k n h = length-take_of_le k (zeros n) (omega (arith, length-zeros n))

arrays-held : ArraysHeld 4 (wide cadr) arrays arrays
unfolding wide
arrays-held = record {
  amem_fills = (refl, omega arith);
  mmem_fills = (refl, omega arith);
  dmem_fills = first_zeros 2048 4096 (omega arith);
  pdl_fills = (refl, omega arith);
  spc_fills = (refl, omega arith);
  l1_map_fills = first_zeros 2048 8192 (omega arith);
  amem_fits = (omega arith, (omega arith, tt));
  mmem_fits = (omega arith, tt);
  dmem_fits =
      All-take (λ v. v < 2 ^ 32) 2048 (zeros 4096) (zeros-All (λ v. v < 2 ^ 32) 4096 (omega arith));
  pdl_fits = (omega arith, tt);
  spc_fits = (omega arith, tt);
  l1_map_fits =
      All-take (λ v. v < 2 ^ 32) 2048 (zeros 8192) (zeros-All (λ v. v < 2 ^ 32) 8192 (omega arith));
}

dispatch-held : IsHeldDispatch 4 dispatch
dispatch-held = record {
  register_fits = omega arith;
  index_fits = omega arith;
  entries_fit = table-All (λ v. v < 2 ^ 32) dispatch.entries 0 entries_count (λ j. omega arith);
  localp_fits = omega arith;
  ap_fits = omega arith;
  armed_fits = tt;
  m31_fits = tt;
}

reset-held : IsTimer (record {
  on = false;
  one_shot = false;
  interrupt_enable = false;
  period_us = 0;
  deadline_ns = 2 ^ 64 - 1;
})
reset-held = record { period_fits = omega arith; deadline_fits = omega arith }

machine-IsHeld : IsHeld 4 machine machine
unfolding geometry_of
machine-IsHeld = record {
  narrow = omega arith;
  width_is = refl;
  is_machine = refl;
  prom_fills = (refl, omega arith);
  prom_fits = (omega arith, tt);
  imem_fills = (refl, omega arith);
  imem_fits = (omega arith, tt);
  debug_ir_fits = omega arith;
  arrays_held = arrays-held;
  spcptr_fits = omega arith;
  pdl_pointer_fits = omega arith;
  pdl_index_fits = omega arith;
  registers_held = record {
    q_fits = omega arith;
    opc_fits = omega arith;
    lc_fits = omega arith;
    vma_fits = omega arith;
    md_fits = omega arith;
    interrupt_control_fits = omega arith;
    dispatch_constant_fits = omega arith;
  };
  timers_counted = refl;
  timers_fit = (reset-held, (reset-held, (reset-held, tt)));
  macro_dispatch_held = dispatch-held;
  rtc_fits = tt;
  files_held = record {
    cmd_base_fits = omega arith;
    cmd_log2_fits = omega arith;
    resp_base_fits = omega arith;
    resp_log2_fits = omega arith;
    cmd_prod_fits = omega arith;
    cmd_cons_fits = omega arith;
    resp_cons_fits = omega arith;
    head_due_fits = omega arith;
  };
  rings_fit = (omega arith, omega arith);
}

load_to_geometry-save_example :
    to_the_end (load_to_geometry machine) (reader 4 (save_to_geometry machine new).out)
    ≡ ok (loaded_over machine machine, reader 4 [])
load_to_geometry-save_example = load_to_geometry-save 4 machine machine machine-IsHeld

saved : Saves 4 (save_to_geometry machine) (load_to_geometry machine) (loaded_over machine machine)
saved = Saves-head 4 machine machine machine-IsHeld

load_to_geometry-IsLoaded_example : IsLoaded (loaded_over machine machine)
load_to_geometry-IsLoaded_example =
    load_to_geometry-IsLoaded machine (loaded_over machine machine)
      (reader 4 (saved.encoding ++ [])) (reader 4 []) (saved.gets [])
