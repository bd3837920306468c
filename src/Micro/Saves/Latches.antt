-- ===== src/Micro/Saves/Latches.antt =====
-- The engine's fields from the map's words on are read back as they were written.
use muir.Base.{ℕ, ◌≤◌}
use muir.Checkpoint.Codec.{Saves, Saves-seq, Saves-pure}
use muir.Checkpoint.Codec.Fields.{Saves-bool, Saves-speed, Saves-u8, Saves-u32, Saves-u64}
use muir.Checkpoint.Codec.Sequences.{Saves-opt}
use muir.Micro.State.{Micro}
use muir.Micro.Saves.Items.{Saves-map, Saves-write_out, Saves-pdl_write, Saves-spc_write, Saves-pcs}
use muir.Micro.Saves.Stages.{
  put_maps, put_times, put_nopped, put_run, put_halted, put_access, put_pdl, put_stack, put_opc,
}
use muir.Micro.Saves.Stages.{
  get_maps, get_times, get_nopped, get_run, get_halted, get_access, get_pdl, get_stack, get_opc,
}
use muir.Micro.Saves.Held.{IsHeld}

module _ {D : Type 0} where
  abbrev pub with_maps : Micro D → Micro D → Micro D
  with_maps m x = record x {
    access = record x.access {
      map_write = m.access.map_write;
      map_write_d = m.access.map_write_d;
      lvmo = m.access.lvmo;
      wrcyc = m.access.wrcyc;
    };
  }

  pub Saves-maps :
      (n : ℕ) (m x : Micro D)
      → n ≤ 8
      → IsHeld n m
      → Saves n (put_maps m) (get_maps x) (with_maps m x)
  unfolding put_maps get_maps
  Saves-maps n m x narrow h =
      Saves-seq _ (Saves-opt _ (Saves-map n narrow) m.access.map_write h.map_write_fits) (
        Saves-seq _ (Saves-opt _ (Saves-map n narrow) m.access.map_write_d h.map_write_d_fits) (
          Saves-seq _ (Saves-u32 n m.access.lvmo h.lvmo_fits)
            (Saves-seq _ (Saves-bool n m.access.wrcyc) (Saves-pure _))))

  abbrev pub with_times : Micro D → Micro D → Micro D
  with_times m x = record x {
    clock = record x.clock {
      speed = m.clock.speed;
      speed_a = m.clock.speed_a;
      memory_cycle_ns = m.clock.memory_cycle_ns;
      memory_cycles = m.clock.memory_cycles;
    };
  }

  pub Saves-times :
      (n : ℕ) (m x : Micro D)
      → n ≤ 8
      → IsHeld n m
      → Saves n (put_times m) (get_times x) (with_times m x)
  unfolding put_times get_times
  Saves-times n m x _ h = Saves-seq _ (Saves-speed n m.clock.speed) (
      Saves-seq _ (Saves-speed n m.clock.speed_a) (
        Saves-seq _ (Saves-u64 n m.clock.memory_cycle_ns h.memory_cycle_ns_fits)
          (Saves-seq _ (Saves-u64 n m.clock.memory_cycles h.memory_cycles_fits) (Saves-pure _))))

  abbrev pub with_nopped : Micro D → Micro D → Micro D
  with_nopped m x = record x { pipeline = record x.pipeline { nopped = m.pipeline.nopped } }

  pub Saves-nopped :
      (n : ℕ) (m x : Micro D)
      → n ≤ 8
      → IsHeld n m
      → Saves n (put_nopped m) (get_nopped x) (with_nopped m x)
  unfolding put_nopped get_nopped
  Saves-nopped n m x _ _ = Saves-seq _ (Saves-u8 n m.pipeline.nopped) (Saves-pure _)

  abbrev pub with_run : Micro D → Micro D → Micro D
  with_run m x = record x {
    clock = record x.clock { srun = m.clock.srun; sstep = m.clock.sstep; ssdone = m.clock.ssdone };
  }

  pub Saves-run :
      (n : ℕ) (m x : Micro D) → n ≤ 8 → IsHeld n m → Saves n (put_run m) (get_run x) (with_run m x)
  unfolding put_run get_run
  Saves-run n m x _ _ = Saves-seq _ (Saves-bool n m.clock.srun) (
      Saves-seq _ (Saves-bool n m.clock.sstep)
        (Saves-seq _ (Saves-bool n m.clock.ssdone) (Saves-pure _)))

  abbrev pub with_halted : Micro D → Micro D → Micro D
  with_halted m x = record x { pipeline = record x.pipeline { halted = m.pipeline.halted } }

  pub Saves-halted :
      (n : ℕ) (m x : Micro D)
      → n ≤ 8
      → IsHeld n m
      → Saves n (put_halted m) (get_halted x) (with_halted m x)
  unfolding put_halted get_halted
  Saves-halted n m x _ _ = Saves-seq _ (Saves-bool n m.pipeline.halted) (Saves-pure _)

  abbrev pub with_access : Micro D → Micro D → Micro D
  with_access m x = record x {
    access = record x.access {
      memstart = m.access.memstart;
      memop = m.access.memop;
      write_out = m.access.write_out;
    };
  }

  pub Saves-access :
      (n : ℕ) (m x : Micro D)
      → n ≤ 8
      → IsHeld n m
      → Saves n (put_access m) (get_access x) (with_access m x)
  unfolding put_access get_access
  Saves-access n m x _ h = Saves-seq _ (Saves-bool n m.access.memstart) (
      Saves-seq _ (Saves-bool n m.access.memop) (
        Saves-seq _ (Saves-opt _ (Saves-write_out n) m.access.write_out h.write_out_fits)
          (Saves-pure _)))

  abbrev pub with_pdl : Micro D → Micro D → Micro D
  with_pdl m x = record x { pdl = record x.pdl { pdl_write = m.pdl.pdl_write } }

  pub Saves-pdl :
      (n : ℕ) (m x : Micro D) → n ≤ 8 → IsHeld n m → Saves n (put_pdl m) (get_pdl x) (with_pdl m x)
  unfolding put_pdl get_pdl
  Saves-pdl n m x narrow h =
      Saves-seq _ (Saves-opt _ (Saves-pdl_write n narrow) m.pdl.pdl_write h.pdl_write_fits)
        (Saves-pure _)

  abbrev pub with_stack : Micro D → Micro D → Micro D
  with_stack m x = record x { stack = record x.stack { spc_write = m.stack.spc_write } }

  pub Saves-stack :
      (n : ℕ) (m x : Micro D)
      → n ≤ 8
      → IsHeld n m
      → Saves n (put_stack m) (get_stack x) (with_stack m x)
  unfolding put_stack get_stack
  Saves-stack n m x _ h =
      Saves-seq _ (Saves-opt _ (Saves-spc_write n) m.stack.spc_write h.spc_write_fits)
        (Saves-pure _)

  abbrev pub with_opc : Micro D → Micro D → Micro D
  with_opc m x = record x {
    pipeline = record x.pipeline {
      opc = m.pipeline.opc;
      opc_ck = m.pipeline.opc_ck;
      trap = m.pipeline.trap;
    };
  }

  pub Saves-opc :
      (n : ℕ) (m x : Micro D) → n ≤ 8 → IsHeld n m → Saves n (put_opc m) (get_opc x) (with_opc m x)
  unfolding put_opc get_opc
  Saves-opc n m x _ h = Saves-seq _ (Saves-pcs n m.pipeline.opc h.opc_counted h.opc_fits) (
      Saves-seq _ (Saves-bool n m.pipeline.opc_ck)
        (Saves-seq _ (Saves-bool n m.pipeline.trap) (Saves-pure _)))
