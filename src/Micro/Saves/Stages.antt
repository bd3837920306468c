-- ===== src/Micro/Saves/Stages.antt =====
-- src/micro.rs, `save` and `load`: the engine's fields in their order, by the part of the state
-- that they stand in.
use muir.Checkpoint.Writer.{Put, ◌>>◌}
use muir.Checkpoint.Writer
use muir.Checkpoint.Reader.{Get, ◌>>=◌, pure}
use muir.Checkpoint.Reader
use muir.Micro.State.{Micro}
use muir.Micro.Saves.Items.{
  put_insn, get_insn, put_map, get_map, put_write_out, get_write_out, put_pdl_write, get_pdl_write,
  put_spc_write, get_spc_write,
}

module _ {D : Type 0} where
  unfoldable pub put_fetches : Micro D → Put
  put_fetches m = do
    put_insn m.pipeline.p0
    Writer.u16 m.pipeline.p0_pc
    put_insn m.pipeline.p1
    Writer.u16 m.pipeline.p1_pc
    Writer.u16 m.pipeline.npc
    Writer.bool m.pipeline.inhibit
    Writer.bool m.pipeline.popj

  unfoldable pub get_fetches : Micro D → Get (Micro D)
  get_fetches m = do
    p0 ← get_insn
    p0_pc ← Reader.u16
    p1 ← get_insn
    p1_pc ← Reader.u16
    npc ← Reader.u16
    inhibit ← Reader.bool
    popj ← Reader.bool
    pure (record m {
      pipeline = record m.pipeline {
        p0 = p0;
        p0_pc = p0_pc;
        p1 = p1;
        p1_pc = p1_pc;
        npc = npc;
        inhibit = inhibit;
        popj = popj;
      };
    })

  unfoldable pub put_counter : Micro D → Put
  put_counter m = do Writer.bool m.counter.next_instr; Writer.bool m.counter.next_instrd

  unfoldable pub get_counter : Micro D → Get (Micro D)
  get_counter m = do
    next_instr ← Reader.bool
    next_instrd ← Reader.bool
    pure (record m {
      counter = record m.counter { next_instr = next_instr; next_instrd = next_instrd };
    })

  unfoldable pub put_oa : Micro D → Put
  put_oa m = do
    Writer.bool m.pipeline.oal
    Writer.bool m.pipeline.oah
    Writer.u64 m.pipeline.oa_low
    Writer.u64 m.pipeline.oa_high

  unfoldable pub get_oa : Micro D → Get (Micro D)
  get_oa m = do
    oal ← Reader.bool
    oah ← Reader.bool
    oa_low ← Reader.u64
    oa_high ← Reader.u64
    pure (record m {
      pipeline = record m.pipeline { oal = oal; oah = oah; oa_low = oa_low; oa_high = oa_high };
    })

  unfoldable pub put_md : Micro D → Put
  put_md m = do Writer.word m.access.new_md; Writer.u8 m.access.new_md_delay

  unfoldable pub get_md : Micro D → Get (Micro D)
  get_md m = do
    new_md ← Reader.word
    new_md_delay ← Reader.u8
    pure (record m { access = record m.access { new_md = new_md; new_md_delay = new_md_delay } })

  unfoldable pub put_path : Micro D → Put
  put_path m = do
    Writer.u16 m.path.aaddr
    Writer.u8 m.path.maddr
    Writer.word m.path.adata
    Writer.word m.path.mdata
    Writer.word m.path.alu_out
    Writer.word m.path.old_q
    Writer.word m.path.out
    Writer.u64 m.path.iwr

  unfoldable pub get_path : Micro D → Get (Micro D)
  get_path m = do
    aaddr ← Reader.u16
    maddr ← Reader.u8
    adata ← Reader.word
    mdata ← Reader.word
    alu_out ← Reader.word
    old_q ← Reader.word
    out ← Reader.word
    iwr ← Reader.u64
    pure (record m {
      path = record m.path {
        aaddr = aaddr;
        maddr = maddr;
        adata = adata;
        mdata = mdata;
        alu_out = alu_out;
        old_q = old_q;
        out = out;
        iwr = iwr;
      };
    })

  unfoldable pub put_executed : Micro D → Put
  put_executed m = do Writer.opt m.pipeline.executed Writer.u16

  unfoldable pub get_executed : Micro D → Get (Micro D)
  get_executed m = do
    executed ← Reader.opt Reader.u16
    pure (record m { pipeline = record m.pipeline { executed = executed } })

  unfoldable pub put_maps : Micro D → Put
  put_maps m = do
    Writer.opt m.access.map_write put_map
    Writer.opt m.access.map_write_d put_map
    Writer.u32 m.access.lvmo
    Writer.bool m.access.wrcyc

  unfoldable pub get_maps : Micro D → Get (Micro D)
  get_maps m = do
    map_write ← Reader.opt get_map
    map_write_d ← Reader.opt get_map
    lvmo ← Reader.u32
    wrcyc ← Reader.bool
    pure (record m {
      access = record m.access {
        map_write = map_write;
        map_write_d = map_write_d;
        lvmo = lvmo;
        wrcyc = wrcyc;
      };
    })

  unfoldable pub put_times : Micro D → Put
  put_times m = do
    Writer.speed m.clock.speed
    Writer.speed m.clock.speed_a
    Writer.u64 m.clock.memory_cycle_ns
    Writer.u64 m.clock.memory_cycles

  unfoldable pub get_times : Micro D → Get (Micro D)
  get_times m = do
    speed ← Reader.speed
    speed_a ← Reader.speed
    memory_cycle_ns ← Reader.u64
    memory_cycles ← Reader.u64
    pure (record m {
      clock = record m.clock {
        speed = speed;
        speed_a = speed_a;
        memory_cycle_ns = memory_cycle_ns;
        memory_cycles = memory_cycles;
      };
    })

  unfoldable pub put_nopped : Micro D → Put
  put_nopped m = do Writer.u8 m.pipeline.nopped

  unfoldable pub get_nopped : Micro D → Get (Micro D)
  get_nopped m = do
    nopped ← Reader.u8
    pure (record m { pipeline = record m.pipeline { nopped = nopped } })

  unfoldable pub put_run : Micro D → Put
  put_run m = do Writer.bool m.clock.srun; Writer.bool m.clock.sstep; Writer.bool m.clock.ssdone

  unfoldable pub get_run : Micro D → Get (Micro D)
  get_run m = do
    srun ← Reader.bool
    sstep ← Reader.bool
    ssdone ← Reader.bool
    pure (record m { clock = record m.clock { srun = srun; sstep = sstep; ssdone = ssdone } })

  unfoldable pub put_halted : Micro D → Put
  put_halted m = do Writer.bool m.pipeline.halted

  unfoldable pub get_halted : Micro D → Get (Micro D)
  get_halted m = do
    halted ← Reader.bool
    pure (record m { pipeline = record m.pipeline { halted = halted } })

  unfoldable pub put_access : Micro D → Put
  put_access m = do
    Writer.bool m.access.memstart
    Writer.bool m.access.memop
    Writer.opt m.access.write_out put_write_out

  unfoldable pub get_access : Micro D → Get (Micro D)
  get_access m = do
    memstart ← Reader.bool
    memop ← Reader.bool
    write_out ← Reader.opt get_write_out
    pure (record m {
      access = record m.access { memstart = memstart; memop = memop; write_out = write_out };
    })

  unfoldable pub put_pdl : Micro D → Put
  put_pdl m = do Writer.opt m.pdl.pdl_write put_pdl_write

  unfoldable pub get_pdl : Micro D → Get (Micro D)
  get_pdl m = do
    pdl_write ← Reader.opt get_pdl_write
    pure (record m { pdl = record m.pdl { pdl_write = pdl_write } })

  unfoldable pub put_stack : Micro D → Put
  put_stack m = do Writer.opt m.stack.spc_write put_spc_write

  unfoldable pub get_stack : Micro D → Get (Micro D)
  get_stack m = do
    spc_write ← Reader.opt get_spc_write
    pure (record m { stack = record m.stack { spc_write = spc_write } })

  unfoldable pub put_opc : Micro D → Put
  put_opc m = do
    Writer.u16s m.pipeline.opc
    Writer.bool m.pipeline.opc_ck
    Writer.bool m.pipeline.trap

  unfoldable pub get_opc : Micro D → Get (Micro D)
  get_opc m = do
    opc ← Reader.u16s_into 8
    opc_ck ← Reader.bool
    trap ← Reader.bool
    pure (record m { pipeline = record m.pipeline { opc = opc; opc_ck = opc_ck; trap = trap } })
