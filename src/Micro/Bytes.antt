-- ===== src/Micro/Bytes.antt =====
-- src/micro.rs, `byte` and `byte_13`: the BYTE class.
use muir.Base.{ℕ, ◌+◌, true, ◌&&◌, ◌==◌, bit, if◌then◌else◌, low_bits}
use muir.Machine.Geometry.{Geometry, wide}
use muir.Micro.Shifter.{rol, rol40, mask40, mask32, merge, lc_rotation}
use muir.Micro.Counter.{Counter, byte_mode}
use muir.Micro.State.{Devices, Micro, DataPath, ir}
use muir.Micro.Dests.{write_dest, with_out}
use muir.Micro.Arithmetic.{field, rotation}

unfoldable pub byte_13 : Counter → DataPath → ℕ → ℕ
unfolding lc_rotation rol40 mask40 merge
byte_13 c p raw =
    let func = field raw 12 2 in
    let rotate = field raw 0 6 in
    let pos =
      if func == 1 && bit raw 24 then lc_rotation true (byte_mode c) c.lc rotate else rotate in
    let right = if bit func 1 then rotate else 0 in
    let m = if bit func 0 then rol40 p.mdata pos else p.mdata in
    merge (mask40 right (field raw 6 6)) m p.adata

unfoldable pub byte_narrow : Counter → DataPath → ℕ → ℕ
unfolding rotation rol mask32 merge
byte_narrow c p raw =
    let func = field raw 12 2 in
    let pos = rotation c raw in
    let right = if bit func 1 then pos else 0 in
    let left = low_bits (right + field raw 5 5) 5 in
    let word = low_bits p.mdata 32 in
    merge (mask32 left right) (if bit func 0 then rol word pos else word) p.adata

unfoldable pub byte_word : Geometry → Counter → DataPath → ℕ → ℕ
unfolding byte_13 byte_narrow
byte_word g c p raw = if wide g then byte_13 c p raw else byte_narrow c p raw

unfoldable pub byte_class_step : {D : Type 0} → Devices D → Micro D → Micro D
unfolding byte_word write_dest
byte_class_step dev m =
    let word = byte_word m.geometry m.counter m.path m.pipeline.p0.raw in
    write_dest dev (with_out m word) (ir m 14 12)
