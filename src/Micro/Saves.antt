-- ===== src/Micro/Saves.antt =====
-- src/micro.rs, `save` and `load`: the engine's own fields into a checkpoint, and back. The first
-- line of each is the machine's save and load, and stands in Machine/Saves.
use muir.Checkpoint.Writer.{Put, ◌>>◌}
use muir.Checkpoint.Reader.{Get, ◌>>=◌}
use muir.Micro.State.{Micro}
use muir.Micro.Saves.Stages.{
  put_fetches, put_counter, put_oa, put_md, put_path, put_executed, put_maps, put_times, put_nopped,
  put_run, put_halted, put_access, put_pdl, put_stack, put_opc,
}
use muir.Micro.Saves.Stages.{
  get_fetches, get_counter, get_oa, get_md, get_path, get_executed, get_maps, get_times, get_nopped,
  get_run, get_halted, get_access, get_pdl, get_stack, get_opc,
}
pub mod Items
pub mod Stages
pub mod Held
pub mod Fields
pub mod Latches
pub mod RoundTrip
mod Examples

unfoldable pub save : {D : Type 0} → Micro D → Put
save m = do
  put_fetches m
  put_counter m
  put_oa m
  put_md m
  put_path m
  put_executed m
  put_maps m
  put_times m
  put_nopped m
  put_run m
  put_halted m
  put_access m
  put_pdl m
  put_stack m
  put_opc m

-- Over the machine that was loaded before.
unfoldable pub load : {D : Type 0} → Micro D → Get (Micro D)
load m = do
  m1 ← get_fetches m
  m2 ← get_counter m1
  m3 ← get_oa m2
  m4 ← get_md m3
  m5 ← get_path m4
  m6 ← get_executed m5
  m7 ← get_maps m6
  m8 ← get_times m7
  m9 ← get_nopped m8
  m10 ← get_run m9
  m11 ← get_halted m10
  m12 ← get_access m11
  m13 ← get_pdl m12
  m14 ← get_stack m13
  get_opc m14
