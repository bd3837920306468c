-- ===== src/Micro/Saves/Fields.antt =====
-- Each part of the engine's fields up to the executed instruction is read back as it was written.
use muir.Base.{ℕ, ◌≤◌}
use muir.Checkpoint.Codec.{Saves, Saves-seq, Saves-pure}
use muir.Checkpoint.Codec.Fields.{Saves-bool, Saves-u8, Saves-u16, Saves-u64, Saves-word}
use muir.Checkpoint.Codec.Sequences.{Saves-opt}
use muir.Micro.State.{Micro}
use muir.Micro.Saves.Items.{Saves-insn}
use muir.Micro.Saves.Stages.{put_fetches, put_counter, put_oa, put_md, put_path, put_executed}
use muir.Micro.Saves.Stages.{get_fetches, get_counter, get_oa, get_md, get_path, get_executed}
use muir.Micro.Saves.Held.{IsHeld}

module _ {D : Type 0} where
  abbrev pub with_fetches : Micro D → Micro D → Micro D
  with_fetches m x = record x {
    pipeline = record x.pipeline {
      p0 = m.pipeline.p0;
      p0_pc = m.pipeline.p0_pc;
      p1 = m.pipeline.p1;
      p1_pc = m.pipeline.p1_pc;
      npc = m.pipeline.npc;
      inhibit = m.pipeline.inhibit;
      popj = m.pipeline.popj;
    };
  }

  pub Saves-fetches :
      (n : ℕ) (m x : Micro D)
      → n ≤ 8
      → IsHeld n m
      → Saves n (put_fetches m) (get_fetches x) (with_fetches m x)
  unfolding put_fetches get_fetches
  Saves-fetches n m x _ h = Saves-seq _ (Saves-insn n m.pipeline.p0 h.p0_fits) (
      Saves-seq _ (Saves-u16 n m.pipeline.p0_pc h.p0_pc_fits) (
        Saves-seq _ (Saves-insn n m.pipeline.p1 h.p1_fits) (
          Saves-seq _ (Saves-u16 n m.pipeline.p1_pc h.p1_pc_fits) (
            Saves-seq _ (Saves-u16 n m.pipeline.npc h.npc_fits) (
              Saves-seq _ (Saves-bool n m.pipeline.inhibit)
                (Saves-seq _ (Saves-bool n m.pipeline.popj) (Saves-pure _)))))))

  abbrev pub with_counter : Micro D → Micro D → Micro D
  with_counter m x = record x {
    counter = record x.counter {
      next_instr = m.counter.next_instr;
      next_instrd = m.counter.next_instrd;
    };
  }

  pub Saves-counter :
      (n : ℕ) (m x : Micro D)
      → n ≤ 8
      → IsHeld n m
      → Saves n (put_counter m) (get_counter x) (with_counter m x)
  unfolding put_counter get_counter
  Saves-counter n m x _ _ =
      Saves-seq _ (Saves-bool n m.counter.next_instr)
        (Saves-seq _ (Saves-bool n m.counter.next_instrd) (Saves-pure _))

  abbrev pub with_oa : Micro D → Micro D → Micro D
  with_oa m x = record x {
    pipeline = record x.pipeline {
      oal = m.pipeline.oal;
      oah = m.pipeline.oah;
      oa_low = m.pipeline.oa_low;
      oa_high = m.pipeline.oa_high;
    };
  }

  pub Saves-oa :
      (n : ℕ) (m x : Micro D) → n ≤ 8 → IsHeld n m → Saves n (put_oa m) (get_oa x) (with_oa m x)
  unfolding put_oa get_oa
  Saves-oa n m x _ h = Saves-seq _ (Saves-bool n m.pipeline.oal) (
      Saves-seq _ (Saves-bool n m.pipeline.oah) (
        Saves-seq _ (Saves-u64 n m.pipeline.oa_low h.oa_low_fits)
          (Saves-seq _ (Saves-u64 n m.pipeline.oa_high h.oa_high_fits) (Saves-pure _))))

  abbrev pub with_md : Micro D → Micro D → Micro D
  with_md m x = record x {
    access = record x.access { new_md = m.access.new_md; new_md_delay = m.access.new_md_delay };
  }

  pub Saves-md :
      (n : ℕ) (m x : Micro D) → n ≤ 8 → IsHeld n m → Saves n (put_md m) (get_md x) (with_md m x)
  unfolding put_md get_md
  Saves-md n m x narrow h =
      Saves-seq _ (Saves-word n m.access.new_md narrow h.new_md_fits)
        (Saves-seq _ (Saves-u8 n m.access.new_md_delay) (Saves-pure _))

  abbrev pub with_path : Micro D → Micro D → Micro D
  with_path m x = record x {
    path = record x.path {
      aaddr = m.path.aaddr;
      maddr = m.path.maddr;
      adata = m.path.adata;
      mdata = m.path.mdata;
      alu_out = m.path.alu_out;
      old_q = m.path.old_q;
      out = m.path.out;
      iwr = m.path.iwr;
    };
  }

  pub Saves-path :
      (n : ℕ) (m x : Micro D)
      → n ≤ 8
      → IsHeld n m
      → Saves n (put_path m) (get_path x) (with_path m x)
  unfolding put_path get_path
  Saves-path n m x narrow h = Saves-seq _ (Saves-u16 n m.path.aaddr h.aaddr_fits) (
      Saves-seq _ (Saves-u8 n m.path.maddr) (
        Saves-seq _ (Saves-word n m.path.adata narrow h.adata_fits) (
          Saves-seq _ (Saves-word n m.path.mdata narrow h.mdata_fits) (
            Saves-seq _ (Saves-word n m.path.alu_out narrow h.alu_out_fits) (
              Saves-seq _ (Saves-word n m.path.old_q narrow h.old_q_fits) (
                Saves-seq _ (Saves-word n m.path.out narrow h.out_fits)
                  (Saves-seq _ (Saves-u64 n m.path.iwr h.iwr_fits) (Saves-pure _))))))))

  abbrev pub with_executed : Micro D → Micro D → Micro D
  with_executed m x = record x { pipeline = record x.pipeline { executed = m.pipeline.executed } }

  pub Saves-executed :
      (n : ℕ) (m x : Micro D)
      → n ≤ 8
      → IsHeld n m
      → Saves n (put_executed m) (get_executed x) (with_executed m x)
  unfolding put_executed get_executed
  Saves-executed n m x _ h =
      Saves-seq _ (Saves-opt _ (Saves-u16 n) m.pipeline.executed h.executed_fits) (Saves-pure _)
