-- ===== src/Micro/Spy.antt =====
-- src/micro.rs, `spy_read`: the engine's state as the console's bus shows it.
use muir.Base.{ℕ, ◌*◌, ◌||◌, ◌==◌, if◌then◌else◌, List, [], ◌∷◌, get_or}
use muir.Base.{◌>>>◌, low_bits}
use muir.Machine.Console.{
  ir_low, ir_med, ir_high, opc, pc, ob_low, ob_high, flag_1, flag_2, m_low, m_high, a_low, a_high,
  stat_low, stat_high, open_read, default_flag1, flag1_word, default_flag2, flag2_word,
}
use muir.Micro.State.{Micro}

-- The value at a key of a table, or another one.
unfoldable pub choose : ℕ → ℕ → List (ℕ × ℕ) → ℕ
choose key other [] = other
choose key other ((k, v) ∷ rest) = if key == k then v else choose key other rest

unfoldable pub read_flag1 : {D : Type 0} → Micro D → ℕ
unfolding flag1_word
read_flag1 m = flag1_word (record default_flag1 {
  promdisable = m.bus.console.mode.prom_disable;
  err = m.pipeline.halted;
  ssdone = m.clock.ssdone;
  srun = m.clock.srun;
})

unfoldable pub read_flag2 : {D : Type 0} → Micro D → ℕ
unfolding flag2_word
read_flag2 m = flag2_word (record default_flag2 {
  nop = m.pipeline.inhibit || m.bus.console.clock_control.nop11;
  vmaok = m.access.vmaok;
})

unfoldable pub spy_read : {D : Type 0} → Micro D → ℕ → ℕ
unfolding choose read_flag1 read_flag2
spy_read m eadr =
    let half = low_bits (m.pipeline.p1.raw >>> (16 * eadr)) 16 in
    choose eadr open_read (
      (ir_low, half)
      ∷ (ir_med, half)
      ∷ (ir_high, half)
      ∷ (opc, low_bits (get_or m.pipeline.opc 7 0) 14)
      ∷ (pc, low_bits m.pipeline.npc 14)
      ∷ (ob_low, low_bits m.path.out 16)
      ∷ (ob_high, low_bits (m.path.out >>> 16) 16)
      ∷ (flag_1, read_flag1 m)
      ∷ (flag_2, read_flag2 m)
      ∷ (m_low, low_bits m.path.mdata 16)
      ∷ (m_high, low_bits (m.path.mdata >>> 16) 16)
      ∷ (a_low, low_bits m.path.adata 16)
      ∷ (a_high, low_bits (m.path.adata >>> 16) 16)
      ∷ (stat_low, 0)
      ∷ (stat_high, 0)
      ∷ [])
