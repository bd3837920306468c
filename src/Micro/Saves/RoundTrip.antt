-- ===== src/Micro/Saves/RoundTrip.antt =====
-- The engine is resumed as it was saved.
use muir.Base.{ℕ, ◌≤◌, ◌≡◌, List, [], ◌++◌, ap, sym, ◌∙◌}
use muir.Checkpoint.{ok}
use muir.Checkpoint.Codec.{Saves, Saves-seq, reader, writer}
use muir.Micro.State.{Micro}
use muir.Micro.Saves.{save, load}
use muir.Micro.Saves.Held.{IsHeld}
use muir.Micro.Saves.Fields.{
  Saves-fetches, Saves-counter, Saves-oa, Saves-md, Saves-path, Saves-executed,
}
use muir.Micro.Saves.Latches.{
  Saves-maps, Saves-times, Saves-nopped, Saves-run, Saves-halted, Saves-access, Saves-pdl,
  Saves-stack, Saves-opc,
}

module _ {D : Type 0} where
  -- The engine's fields of `m` over the machine that was loaded.
  abbrev pub resumed : Micro D → Micro D → Micro D
  resumed m loaded = record loaded {
    path = record m.path {
      amem = loaded.path.amem;
      mmem = loaded.path.mmem;
      dmem = loaded.path.dmem;
      q = loaded.path.q;
      overflow = loaded.path.overflow;
      dispatch_constant = loaded.path.dispatch_constant;
    };
    pipeline = record m.pipeline {
      imem = loaded.pipeline.imem;
      prom = loaded.pipeline.prom;
      machine_opc = loaded.pipeline.machine_opc;
    };
    access = record m.access {
      maps = loaded.access.maps;
      vma = loaded.access.vma;
      md = loaded.access.md;
      vmaok = loaded.access.vmaok;
      map_seen = loaded.access.map_seen;
    };
    clock = record m.clock {
      sync_cycle_ns = loaded.clock.sync_cycle_ns;
      ns = loaded.clock.ns;
      cycles = loaded.clock.cycles;
    };
    stack = record loaded.stack { spc_write = m.stack.spc_write };
    pdl = record loaded.pdl { pdl_write = m.pdl.pdl_write };
    counter = record loaded.counter {
      next_instr = m.counter.next_instr;
      next_instrd = m.counter.next_instrd;
    };
  }

  Saves-engine :
      (n : ℕ) (m loaded : Micro D)
      → n ≤ 8
      → IsHeld n m
      → Saves n (save m) (load loaded) (resumed m loaded)
  unfolding save load
  Saves-engine n m loaded narrow h = Saves-seq _ (Saves-fetches n m _ narrow h) (
      Saves-seq _ (Saves-counter n m _ narrow h) (
        Saves-seq _ (Saves-oa n m _ narrow h) (
          Saves-seq _ (Saves-md n m _ narrow h) (
            Saves-seq _ (Saves-path n m _ narrow h) (
              Saves-seq _ (Saves-executed n m _ narrow h) (
                Saves-seq _ (Saves-maps n m _ narrow h) (
                  Saves-seq _ (Saves-times n m _ narrow h) (
                    Saves-seq _ (Saves-nopped n m _ narrow h) (
                      Saves-seq _ (Saves-run n m _ narrow h) (
                        Saves-seq _ (Saves-halted n m _ narrow h) (
                          Saves-seq _ (Saves-access n m _ narrow h) (
                            Saves-seq _ (Saves-pdl n m _ narrow h) (
                              Saves-seq _ (Saves-stack n m _ narrow h)
                                (Saves-opc n m _ narrow h))))))))))))))

  -- What `save` writes of an engine, after anything and before anything, `load` takes back, byte
  -- for byte, as the engine with the fields that were saved over the machine that was loaded. The
  -- engine's numbers fit their types, and its words the checkpoint's.
  pub load-save :
      (n : ℕ) (m loaded : Micro D) (out tail : List ℕ)
      → n ≤ 8
      → IsHeld n m
      → let bytes = (save m (writer n [])).out in
        (save m (writer n out) ≡ writer n (out ++ bytes))
        × (load loaded (reader n (bytes ++ tail)) ≡ ok (resumed m loaded, reader n tail))
  load-save n m loaded out tail narrow h =
      let s = Saves-engine n m loaded narrow h in
      let e : (save m (writer n [])).out ≡ s.encoding = ap (λ w. w.out) (s.puts []) in
      (
        s.puts out ∙ ap (λ bs. writer n (out ++ bs)) (sym e),
        ap (λ bs. load loaded (reader n (bs ++ tail))) e ∙ s.gets tail,
      )
