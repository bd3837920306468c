-- ===== src/Micro/Conditions.antt =====
-- src/micro.rs, `jump_condition` and `jump_condition_13`: what a jump tests.
pub mod Compare
mod Examples
use muir.Base.{
  ℕ, ◌+◌, ◌*◌, ◌/◌, ◌%◌, ◌^◌, bit_or, Bool, true, false, not, ◌&&◌, ◌||◌, ◌==◌, ltb, bit,
}
use muir.Base.{if◌then◌else◌, List, [], ◌∷◌, get_or, ◌>>>◌, ◌<<<◌, low_bits}
use muir.Machine.Geometry.{wide}
use muir.Processor.Alu.{Alu}
use muir.Micro.Shifter.{rol, rol40, lc_rotation}
use muir.Micro.Counter.{Counter, byte_mode, above}
use muir.Micro.State.{Devices, Micro, DataPath}
use muir.Micro.Arithmetic.{field, array, control, rotation}

-- What the conditions read beside the data path.
pub record Signals : Type 0 where
  pub vmaok : Bool
  pub pending : Bool
  pub sequence_break : Bool

-- The conditions 0 to 6, of the bit tested, the array and what counts as equal.
abbrev pub conditions : Bool → Alu → Bool → Signals → List Bool
conditions tested a equal s =
    tested
    ∷ (not a.aeqm && bit a.f 32)
    ∷ bit a.f 32
    ∷ equal
    ∷ not s.vmaok
    ∷ (not s.vmaok || s.pending)
    ∷ (not s.vmaok || s.pending || s.sequence_break)
    ∷ []

-- A bit test, which leaves the M source rotated, or a condition.
abbrev pub tested_or : Bool → Bool × ℕ → Bool × ℕ → Bool × ℕ
tested_or true test condition = condition
tested_or false test condition = test

-- The condition, and the M source.
unfoldable pub condition_narrow : Counter → Signals → DataPath → ℕ → Bool × ℕ
unfolding rotation rol array control
condition_narrow c s p raw =
    let r = rol (low_bits p.mdata 32) (rotation c raw) in
    let a = array p raw (control p raw false) in
    tested_or (bit raw 5) (bit r 0, bit_or (above p.mdata 32) r)
      (get_or (conditions (bit r 0) a a.aeqm s) (field raw 0 3) true, p.mdata)

unfoldable pub condition_13 : Counter → Signals → DataPath → ℕ → Bool × ℕ
unfolding lc_rotation rol40 array control
condition_13 c s p raw =
    let given = bit_or (field raw 47 1 <<< 5) (field raw 0 5) in
    let rotate = if field raw 10 2 == 3 then lc_rotation true (byte_mode c) c.lc given else given in
    let r = rol40 p.mdata rotate in
    let a = array p raw (control p raw false) in
    let equal = a.aeqm && (p.mdata >>> 32) == (p.adata >>> 32) in
    let code = field raw 0 5 in
    let tested =
      if code == 0o10
      then p.overflow
      else if code == 0o11
      then ltb (low_bits p.mdata 32) (low_bits p.adata 32)
      else get_or (conditions (bit r 0) a equal s) (low_bits code 3) true in
    tested_or (bit raw 5) (bit r 0, r) (tested, p.mdata)

unfoldable pub signals : {D : Type 0} → Devices D → Micro D → Signals
signals dev m = record {
  vmaok = m.access.vmaok;
  pending = bit m.counter.interrupt_control 27 && dev.interrupt m.clock.ns m.bus;
  sequence_break = bit m.counter.interrupt_control 26;
}

unfoldable pub jump_condition : {D : Type 0} → Devices D → Micro D → Bool × Micro D
unfolding condition_narrow condition_13 signals
jump_condition dev m =
    let raw = m.pipeline.p0.raw in
    let s = signals dev m in
    let (cond, mdata) =
      if wide m.geometry
      then condition_13 m.counter s m.path raw
      else condition_narrow m.counter s m.path raw in
    (cond, record m { path = record m.path { mdata = mdata } })
