-- ===== src/Micro/Saves/Examples.antt =====
-- An engine saved with a write to go out, and loaded.
use muir.Base.{◌++◌, ◌^◌, ◌<◌, ◌≡◌, refl, arith, some, [], ◌∷◌, All-replicate, zero}
use muir.Base.Memory.{Memory}
use muir.Machine.Geometry.{cadr}
use muir.Processor.Isa.{insn}
use muir.Checkpoint.{ok}
use muir.Checkpoint.Codec.{reader, writer}
use muir.Micro.State.{Micro, due}
use muir.Micro.Boot.{new}
use muir.Micro.Saves.{save, load}
use muir.Micro.Saves.Held.{IsHeld}
use muir.Micro.Saves.RoundTrip.{resumed, load-save}

abbrev before : Micro Memory
before = new cadr (λ a. insn 0) (λ a. 0)

abbrev writing : Micro Memory
writing = record before { access = record before.access { write_out = some (0o1234, due) } }

writing-IsHeld : IsHeld 4 writing
unfolding new
writing-IsHeld = record {
  p0_fits = omega arith;
  p0_pc_fits = omega arith;
  p1_fits = omega arith;
  p1_pc_fits = omega arith;
  npc_fits = omega arith;
  oa_low_fits = omega arith;
  oa_high_fits = omega arith;
  new_md_fits = omega arith;
  aaddr_fits = omega arith;
  adata_fits = omega arith;
  mdata_fits = omega arith;
  alu_out_fits = omega arith;
  old_q_fits = omega arith;
  out_fits = omega arith;
  iwr_fits = omega arith;
  executed_fits = tt;
  map_write_fits = tt;
  map_write_d_fits = tt;
  lvmo_fits = omega arith;
  memory_cycle_ns_fits = omega arith;
  memory_cycles_fits = omega arith;
  write_out_fits = omega arith;
  pdl_write_fits = tt;
  spc_write_fits = tt;
  opc_counted = refl;
  opc_fits = All-replicate (λ v. v < 2 ^ 16) 8 zero (omega arith);
}

load-save_example :
    let bytes = (save writing (writer 4 [])).out in
    (save writing (writer 4 (7 ∷ [])) ≡ writer 4 (7 ∷ bytes))
    × (load before (reader 4 (bytes ++ (8 ∷ []))) ≡ ok (resumed writing before, reader 4 (8 ∷ [])))
load-save_example = load-save 4 writing before (7 ∷ []) (8 ∷ []) (omega arith) writing-IsHeld
