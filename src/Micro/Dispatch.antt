-- ===== src/Micro/Dispatch.antt =====
-- src/micro.rs, `dispatch`: the DISPATCH class.
use muir.Base.{ℕ, ◌+◌, ◌-◌, ◌%◌, ◌^◌, bit_and, bit_or, Bool, true, false, not, ◌&&◌, ◌||◌}
use muir.Base.{◌==◌, bit, of_bool, if◌then◌else◌, ◌<<<◌, ◌>>>◌, low_bits}
use muir.Base.Memory.{update}
use muir.Machine.Geometry.{Geometry, wide, dmem_words}
use muir.Machine.Map.{Translation}
use muir.Micro.Shifter.{ones32, rol, rol40, lc_rotation}
use muir.Micro.Stack.{ignpopj, push_spc}
use muir.Micro.Counter.{Counter, byte_mode, above}
use muir.Micro.State.{Devices, Micro, DataPath, ir, when, either_of}
use muir.Micro.Port.{advance_lc}
use muir.Micro.Sources.{seen}
use muir.Micro.Arithmetic.{field, rotation}
use muir.Micro.Jumps.{main_loop_return, popped_return, called}

-- The M source rotated, as 32 bits.
unfoldable pub dispatch_m : Geometry → Counter → DataPath → ℕ → ℕ
unfolding lc_rotation rol rol40 rotation
dispatch_m g c p raw =
    if wide g
    then (let given = bit_or (field raw 47 1 <<< 5) (field raw 0 5) in
        let pos =
          if field raw 10 2 == 3 then lc_rotation true (byte_mode c) c.lc given else given in
        low_bits (rol40 p.mdata pos) 32)
    else rol (low_bits p.mdata 32) (rotation c raw)

-- `!0u32 >> (31 - ((len - 1) & 0o37))`
unfoldable pub dispatch_mask : ℕ → ℕ
dispatch_mask len = if len == 0 then 0 else ones32 >>> (31 - low_bits (len - 1) 5)

-- The low bit of the address that the map gives.
unfoldable pub map_bit : Geometry → ℕ → Translation → ℕ
map_bit g map t =
    let at = if wide g then 22 else 18 in
    let b18 = bit t.l2_data at in
    let b19 = bit t.l2_data (at + 1) in
    of_bool (if map == 1 then b18 else if map == 2 then b19 else b18 || b19)

unfoldable pub dispatch_address : {D : Type 0} → Micro D → ℕ
unfolding dispatch_m dispatch_mask map_bit seen
dispatch_address m =
    let raw = m.pipeline.p0.raw in
    let g = m.geometry in
    let addr = field raw 12 (if wide g then 12 else 11) in
    let index = bit_and (dispatch_m g m.counter m.path raw) (dispatch_mask (field raw 5 3)) in
    let map = field raw 8 2 in
    let whole =
      if map == 0
      then bit_or addr index
      else bit_or addr (bit_or (above index 1) (map_bit g map (seen m))) in
    whole % dmem_words g

-- `IGNPOPJ` of an entry, and the pop that a write of the memory takes at once.
unfoldable pub popj_ignored : {D : Type 0} → Micro D → ℕ → Micro D
unfolding ignpopj
popj_ignored m entry = record m { stack = ignpopj m.stack entry }

-- `IR<11:10>` = 2: the A source is written into the dispatch memory.
unfoldable pub dispatch_write : {D : Type 0} → Micro D → ℕ → Micro D
unfolding popj_ignored
dispatch_write m adr =
    let new = low_bits m.path.adata 17 in
    let entry = if m.geometry.old_word_while_written then m.path.dmem adr else new in
    let written =
      popj_ignored (record m { path = record m.path { dmem = update m.path.dmem adr new } })
        entry in
    let pops = m.pipeline.popj && not (bit entry 16) in
    record written {
      pipeline = record m.pipeline {
        npc = if pops then low_bits entry 14 else m.pipeline.npc;
        popj = m.pipeline.popj && not pops;
      };
    }

-- The pc that a dispatch's call pushes.
unfoldable pub dispatch_return_pc : ℕ → Bool → Bool → ℕ
dispatch_return_pc npc n use_lpc =
    let down1 = (npc + 2 ^ 16 - 1) % 2 ^ 16 in
    let down2 = (down1 + 2 ^ 16 - 1) % 2 ^ 16 in
    low_bits (if n then (if use_lpc then down2 else down1) else npc) 14

-- Where an entry goes: bit 16 returns.
unfoldable pub dispatch_target : {D : Type 0} → Bool → ℕ → Bool → Micro D → ℕ × Micro D
unfolding main_loop_return popped_return
dispatch_target true entry advance m = popped_return (λ p t. main_loop_return p t advance) m
dispatch_target false entry advance m = (entry, m)

-- What an entry does that does not fall through: a call, a return or a jump.
unfoldable pub dispatch_transfer : {D : Type 0} → ℕ → Bool → ℕ → Micro D → Micro D
unfolding dispatch_target push_spc
dispatch_transfer entry advance ret m =
    let pushed = when (bit entry 15) (λ p. called p ret) m in
    let (target, after) = dispatch_target (bit entry 16) entry advance pushed in
    record after { pipeline = record after.pipeline { npc = low_bits target 14; popj = false } }

-- A dispatch through an entry.
unfoldable pub dispatch_entry : {D : Type 0} → Devices D → ℕ → Micro D → Micro D
unfolding dispatch_transfer dispatch_return_pc advance_lc popj_ignored
dispatch_entry dev entry m =
    let advance = ir m 24 1 == 1 in
    let ret = dispatch_return_pc m.pipeline.npc (bit entry 14) (ir m 25 1 == 1) in
    let begun = record m { path = record m.path { dispatch_constant = ir m 32 10 } } in
    let stepped = when advance (advance_lc dev) (popj_ignored begun entry) in
    let p = stepped.pipeline in
    let nopped = record stepped {
      pipeline = record p { inhibit = if bit entry 14 then true else p.inhibit };
    } in
    when (not (bit entry 15 && bit entry 16)) (dispatch_transfer entry advance ret) nopped

unfoldable pub dispatch_class_step : {D : Type 0} → Devices D → Micro D → Micro D
unfolding dispatch_address dispatch_write dispatch_entry
dispatch_class_step dev m =
    let adr = dispatch_address m in
    either_of (ir m 10 2 == 2) (λ n. dispatch_write n adr) (dispatch_entry dev (m.path.dmem adr)) m
