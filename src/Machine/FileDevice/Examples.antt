-- ===== src/Machine/FileDevice/Examples.antt =====
-- A file device that is on, and one with a command ring of 512 entries, which is not saved and
-- loaded.
use muir.Base.{ltb, ◌||◌, ℕ, ◌≡◌, arith, false, true, List, ◌++◌, some, if◌then◌else◌}
use muir.Checkpoint.{ok, err, bad_ring}
use muir.Checkpoint.Codec.{reader, writer}
use muir.Machine.FileDevice.{FileDevice, save, load}
use muir.Machine.FileDevice.RoundTrip.{IsHeld, load-save_rings}

abbrev large : FileDevice
large = record {
  enabled = false;
  interrupt_enable = false;
  refused = true;
  index_fault = false;
  cmd_base = 0x1000;
  cmd_log2 = 9;
  resp_base = 0x2000;
  resp_log2 = 8;
  cmd_prod = 3;
  cmd_cons = 2;
  resp_cons = 1;
  head_due = some 77;
}

large-IsHeld : IsHeld large
large-IsHeld = record {
  cmd_base_fits = omega arith;
  cmd_log2_fits = omega arith;
  resp_base_fits = omega arith;
  resp_log2_fits = omega arith;
  cmd_prod_fits = omega arith;
  cmd_cons_fits = omega arith;
  resp_cons_fits = omega arith;
  head_due_fits = omega arith;
}

load-save_rings_example :
    (bytes : List ℕ) × ((out : List ℕ) → save large (writer 4 out) ≡ writer 4 (out ++ bytes))
    × ((tail : List ℕ)
        → load (reader 4 (bytes ++ tail)) ≡ (
            if ltb 8 large.cmd_log2 || ltb 8 large.resp_log2
            then err bad_ring
            else ok (large, reader 4 tail)))
load-save_rings_example = load-save_rings 4 large large-IsHeld
