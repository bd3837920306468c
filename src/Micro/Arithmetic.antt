-- ===== src/Micro/Arithmetic.antt =====
-- src/micro.rs, `alu` and `muldiv`: the ALU class.
use muir.Base.{ℕ, ◌+◌, bit_or, Bool, true, false, not, ◌&&◌, xor, ◌==◌, bit}
use muir.Base.{if◌then◌else◌, Option, some, none, [], ◌∷◌, get_or, of_bool, ◌<<<◌, ◌>>>◌}
use muir.Base.{low_bits}
use muir.Machine.Geometry.{Geometry, wide}
use muir.Processor.Alu.{Alu, Control, alu, alu_control, alu_tag}
use muir.Processor.Muldiv.{Op, decode, run}
use muir.Micro.Shifter.{rol, rol40, mask40, mask32, merge, lc_rotation}
use muir.Micro.Counter.{Counter, byte_mode, above}
use muir.Micro.State.{Devices, Micro, DataPath, ir}
use muir.Micro.Dests.{write_dest}

abbrev pub field : ℕ → ℕ → ℕ → ℕ
field raw pos len = low_bits (raw >>> pos) len

-- The array, as the instruction's control sets it.
unfoldable pub array : DataPath → ℕ → Control → Alu
unfolding alu
array p raw ctl = alu (low_bits p.mdata 32) (low_bits p.adata 32) ctl.aluf ctl.alumode ctl.cin

unfoldable pub control : DataPath → ℕ → Bool → Control
unfolding alu_control
control p raw iralu = alu_control raw (bit p.q 0) (bit p.adata 31) iralu (not iralu)

-- The rotation of a CADR's word, under the location counter where `IR<11:10>` is 3.
unfoldable pub rotation : Counter → ℕ → ℕ
unfolding lc_rotation
rotation c raw =
    let rotate = field raw 0 5 in
    if field raw 10 2 == 3 then lc_rotation false (byte_mode c) c.lc rotate else rotate

-- Output bus select 0: the word of the mask and rotate network.
unfoldable pub network : Geometry → Counter → DataPath → ℕ → ℕ
unfolding rotation rol rol40 mask40 mask32 merge
network g c p raw =
    if wide g
    then (let rotate = field raw 0 6 in
        merge (mask40 rotate (field raw 6 4)) (rol40 p.mdata rotate) p.adata)
    else (let rotate = rotation c raw in
        merge (mask32 (low_bits (rotate + field raw 5 5) 5) rotate)
          (rol (low_bits p.mdata 32) rotate) p.adata)

-- `Q<31:0>` after the shifts of Q control, and the whole of Q after its load.
unfoldable pub q_after : ℕ → ℕ → ℕ → ℕ
q_after q alu_out code =
    let low = low_bits q 32 in
    let left = bit_or (low_bits (low <<< 1) 32) (of_bool (not (bit alu_out 31))) in
    let right = bit_or (low >>> 1) (low_bits alu_out 1 <<< 31) in
    get_or (q ∷ bit_or (above q 32) left ∷ bit_or (above q 32) right ∷ []) code alu_out

-- The two words of the output bus that come from the ALU shifted.
abbrev pub shifted_right : DataPath → ℕ → ℕ
shifted_right p f = bit_or (above p.mdata 32) (low_bits (f >>> 1) 32)

abbrev pub shifted_left : DataPath → ℕ → ℕ
shifted_left p alu_out =
    bit_or (above p.mdata 32)
      (bit_or (low_bits (low_bits alu_out 32 <<< 1) 32) (low_bits p.q 32 >>> 31))

unfoldable pub muldiv : Geometry → ℕ → Option Op
unfolding decode
muldiv g raw = if g.has_muldiv then decode raw else none

-- The path with the ALU's word, the old Q and the overflow flag loaded.
unfoldable pub array_loaded : Geometry → DataPath → ℕ → Alu → ℕ → DataPath
array_loaded g p raw a tag =
    let arithmetic = low_bits (field raw 3 6 >>> 4) 2 == 1 in
    record p {
      alu_out = bit_or (low_bits a.f 32) tag;
      old_q = p.q;
      overflow = if wide g then arithmetic && xor (bit a.f 32) (bit a.f 31) else p.overflow;
    }

-- The ALU class up to its write: everything but the destination.
unfoldable pub alu_path : Geometry → Counter → DataPath → ℕ → DataPath
unfolding array control network q_after muldiv array_loaded run alu_tag
alu_path g c p raw =
    let ctl = control p raw true in
    let a = array p raw ctl in
    let tag = if wide g then alu_tag p.mdata p.adata ctl.aluf ctl.alumode else 0 in
    let loaded = array_loaded g p raw a tag in
    elim (muldiv g raw) [
      | some op ↦
          let (out, q) = run op (low_bits p.mdata 32) (low_bits p.adata 32) (low_bits p.q 32) in
          record loaded { q = bit_or (above p.q 32) q; out = bit_or (above p.mdata 32) out }
      | none ↦ record loaded {
        q = q_after p.q loaded.alu_out (field raw 0 2);
        out =
            get_or (network g c p raw ∷ loaded.alu_out ∷ shifted_right p a.f ∷ []) (field raw 12 2)
              (shifted_left p loaded.alu_out);
      }
    ]

unfoldable pub alu_class_step : {D : Type 0} → Devices D → Micro D → Micro D
unfolding alu_path write_dest
alu_class_step dev m =
    let raw = m.pipeline.p0.raw in
    let path = alu_path m.geometry m.counter m.path raw in
    write_dest dev (record m { path = path }) (ir m 14 12)
