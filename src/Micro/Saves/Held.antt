-- ===== src/Micro/Saves/Held.antt =====
-- The widths of the engine's fields, with words of `n` bytes.
use muir.Base.{ℕ, ◌^◌, ◌<◌, ◌≡◌, IfSome, AllBelow, length}
use muir.Micro.State.{Micro}
use muir.Micro.Saves.Items.{AddressFits}

pub record IsHeld {D : Type 0} (n : ℕ) (m : Micro D) : Type 0 where
  pub p0_fits : m.pipeline.p0.raw < 2 ^ 48
  pub p0_pc_fits : m.pipeline.p0_pc < 2 ^ 16
  pub p1_fits : m.pipeline.p1.raw < 2 ^ 48
  pub p1_pc_fits : m.pipeline.p1_pc < 2 ^ 16
  pub npc_fits : m.pipeline.npc < 2 ^ 16
  pub oa_low_fits : m.pipeline.oa_low < 2 ^ 64
  pub oa_high_fits : m.pipeline.oa_high < 2 ^ 64
  pub new_md_fits : m.access.new_md < (2 ^ 8) ^ n
  pub aaddr_fits : m.path.aaddr < 2 ^ 16
  pub adata_fits : m.path.adata < (2 ^ 8) ^ n
  pub mdata_fits : m.path.mdata < (2 ^ 8) ^ n
  pub alu_out_fits : m.path.alu_out < (2 ^ 8) ^ n
  pub old_q_fits : m.path.old_q < (2 ^ 8) ^ n
  pub out_fits : m.path.out < (2 ^ 8) ^ n
  pub iwr_fits : m.path.iwr < 2 ^ 64
  pub executed_fits : IfSome (λ pc. pc < 2 ^ 16) m.pipeline.executed
  pub map_write_fits : IfSome (λ a. (a.0 < (2 ^ 8) ^ n) × (a.1 < (2 ^ 8) ^ n)) m.access.map_write
  pub map_write_d_fits :
      IfSome (λ a. (a.0 < (2 ^ 8) ^ n) × (a.1 < (2 ^ 8) ^ n)) m.access.map_write_d
  pub lvmo_fits : m.access.lvmo < 2 ^ 32
  pub memory_cycle_ns_fits : m.clock.memory_cycle_ns < 2 ^ 64
  pub memory_cycles_fits : m.clock.memory_cycles < 2 ^ 64
  pub write_out_fits : IfSome (λ o. o.0 < 2 ^ 32) m.access.write_out
  pub pdl_write_fits : IfSome (λ a. AddressFits a.0 × (a.1 < (2 ^ 8) ^ n)) m.pdl.pdl_write
  pub spc_write_fits : IfSome (λ a. a.1 < 2 ^ 32) m.stack.spc_write
  pub opc_counted : length m.pipeline.opc ≡ 8
  pub opc_fits : AllBelow (2 ^ 16) m.pipeline.opc
