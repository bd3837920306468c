-- ===== src/Machine/Saves/RoundTrip.antt =====
-- The machine's head is loaded as it was saved.
use muir.Base.{ℕ, ◌*◌, ◌^◌, ◌≤◌, ◌<◌, ◌≡◌, refl, ap, arith, false, Option, some}
use muir.Base.{All, take, ◌-◌, length, not, if◌then◌else◌, ◌==◌, ltb, sym, List, [], ◌++◌, ◌∙◌}
use native.Mathlib.Nat.{pow-le-pow_right}
use muir.Checkpoint.{ok, width}
use muir.Checkpoint.Writer.{Put, new}
use muir.Checkpoint.Writer
use muir.Checkpoint.Codec.{
  Saves, Saves-seq, Saves-pure, Saves-here, Saves-after, Saves-whole, to_the_end, reader, writer,
}
use muir.Checkpoint.Codec.Fields.{Saves-bool}
use muir.Machine.Geometry.{Geometry, wide}
use muir.Machine.Timer.Saves.{IsTimer, IsRtc, Saves-timers, Saves-rtc}
use muir.Machine.MacroDispatch.Saves.{
  IsHeld as IsHeldDispatch, resumed, load-save as dispatch-load-save,
}
use muir.Machine.FileDevice.RoundTrip.{HasSmallRings, IsHeld as FileDeviceHeld, Saves-files}
use muir.Machine.Saves.{
  sizes, machine_of, pointers_checked, save_to_geometry, load_at, load_to_geometry,
}
use muir.Machine.Saves.State.{Head, Pointers, Codes, codes, geometry_of}
use muir.Machine.Saves.Fields.{
  Fills, InsnsFit, Saves-insns, Saves-console, Saves-pointers, Saves-u32s_slot,
}
use muir.Machine.Saves.Parts.{
  ArraysHeld, RegistersHeld, over, sizes-lt, Saves-arrays, Saves-registers, Saves-codes,
}

-- A machine of one of the four geometries, its numbers in their types, its pointers in its
-- memories and its file device's rings of at most 256 entries, of the sizes of the machine `before` that is loaded into.
pub record IsHeld (n : ℕ) (before h : Head) : Type 0 where
  pub narrow : n ≤ 8
  pub width_is : h.geometry.word_bits ≡ n * 8
  pub is_machine : geometry_of (codes h.geometry) ≡ some h.geometry
  pub prom_fills : Fills h.prom (length before.prom)
  pub prom_fits : InsnsFit h.prom
  pub imem_fills : Fills h.imem (length before.imem)
  pub imem_fits : InsnsFit h.imem
  pub debug_ir_fits : h.console.debug_ir < 2 ^ 64
  pub arrays_held : ArraysHeld n (wide h.geometry) before.arrays h.arrays
  pub spcptr_fits : h.pointers.spcptr < 2 ^ 5
  pub pdl_pointer_fits : h.pointers.pdl_pointer < 2 ^ h.geometry.pdl_bits
  pub pdl_index_fits : h.pointers.pdl_index < 2 ^ h.geometry.pdl_bits
  pub registers_held : RegistersHeld n h.registers
  pub timers_counted : length h.timers ≡ 3
  pub timers_fit : All IsTimer h.timers
  pub macro_dispatch_held : IsHeldDispatch n h.macro_dispatch
  pub rtc_fits : IsRtc h.rtc
  pub files_held : FileDeviceHeld h.file_device
  pub rings_fit : HasSmallRings h.file_device

-- What `before` is once `h` is loaded into it: `h`, with the rest of the two memories that a
-- narrow machine uses a part of, and the overflow flag that it has not.
abbrev pub loaded_over : Head → Head → Head
loaded_over before h = record h {
  arrays = record h.arrays {
    dmem = over (sizes (wide h.geometry) 4096) h.arrays.dmem before.arrays.dmem;
    l1_map = over (sizes (wide h.geometry) 8192) h.arrays.l1_map before.arrays.l1_map;
  };
  overflow = if wide h.geometry then h.overflow else before.overflow;
  macro_dispatch = resumed h.macro_dispatch;
}

wide-named : (g : Geometry) → geometry_of (codes g) ≡ some g → not (g.word_bits == 32) ≡ wide g
unfolding geometry_of wide
wide-named g e = ground arith

pdl_bits-named : (g : Geometry) → geometry_of (codes g) ≡ some g → g.pdl_bits ≤ 14
unfolding geometry_of
pdl_bits-named g e = ground arith

width-eight : (n bits : ℕ) → bits ≡ n * 8 → width bits ≡ n
width-eight n bits e = omega arith

pointer-lt : (bits v : ℕ) → bits ≤ 14 → v < 2 ^ bits → v < 2 ^ 16
pointer-lt bits v b h =
    let two : 0 < 2 = omega arith in
    let e : 2 ^ bits ≤ 2 ^ 14 = pow-le-pow_right two b in omega arith

module _ (n : ℕ) where
  machine_of-named :
      (c : Codes) (o : Option Geometry) (g : Geometry)
      → o ≡ some g
      → Saves n (λ w. w) (machine_of c o) g
  machine_of-named c o g e = Saves-here (λ tail. ap (λ p. machine_of c p (reader n tail)) e)

  pointers_checked-fit :
      (g : Geometry) (p : Pointers)
      → p.pdl_pointer < 2 ^ g.pdl_bits
      → p.pdl_index < 2 ^ g.pdl_bits
      → Saves n (λ w. w) (pointers_checked g p) tt
  pointers_checked-fit g p h i =
      let a : ltb (2 ^ g.pdl_bits - 1) p.pdl_pointer ≡ false = ground arith in
      let b : ltb (2 ^ g.pdl_bits - 1) p.pdl_index ≡ false = ground arith in
      Saves-here (λ tail. rw (a, b) refl)

  module _ (before h : Head) where
    load_at-save :
        IsHeld n before h
        → Saves n (save_to_geometry h) (load_at h.geometry.word_bits before) (loaded_over before h)
    unfolding save_to_geometry load_at wide
    load_at-save v =
        let g = h.geometry in
        let bits = pdl_bits-named g v.is_machine in
        let k = sizes (wide g) 8192 in
        let sets : (out : List ℕ) → Writer.set_word_bits g.word_bits (writer n out) ≡ writer n out =
          λ out. ap (λ b. writer b out) (width-eight n g.word_bits v.width_is) in
        Saves-after sets (
          Saves-seq _ (Saves-insns n h.prom (length before.prom) v.prom_fills v.prom_fits) (
            Saves-seq _ (Saves-insns n h.imem (length before.imem) v.imem_fills v.imem_fits) (
              Saves-seq _ (Saves-console n h.console v.debug_ir_fits) (
                Saves-seq _ (Saves-arrays n g before.arrays h.arrays v.narrow v.arrays_held) (
                  Saves-seq _
                    (Saves-pointers n h.pointers v.spcptr_fits
                      (pointer-lt g.pdl_bits _ bits v.pdl_pointer_fits)
                      (pointer-lt g.pdl_bits _ bits v.pdl_index_fits))
                    (Saves-seq _ (Saves-registers n h.registers v.narrow v.registers_held) (
                      Saves-seq _
                        (Saves-u32s_slot n (take k h.arrays.l1_map) k v.arrays_held.l1_map_fills
                          (sizes-lt (wide g) 8192 (omega arith)) v.arrays_held.l1_map_fits)
                        (Saves-seq _
                          (Saves-codes n g before.overflow h.overflow (wide-named g v.is_machine))
                          (Saves-seq _ (Saves-timers n h.timers v.timers_counted v.timers_fit) (
                            Saves-seq _
                              (dispatch-load-save n h.macro_dispatch v.narrow v.macro_dispatch_held)
                              (Saves-seq _ (Saves-rtc n h.rtc v.rtc_fits) (
                                Saves-seq _ (Saves-files n h.file_device v.files_held v.rings_fit) (
                                  Saves-seq _ (Saves-bool n h.dma_written) (
                                    Saves-seq _
                                      (machine_of-named (codes g) (geometry_of (codes g)) g
                                        v.is_machine)
                                      (Saves-seq _
                                        (pointers_checked-fit g h.pointers v.pdl_pointer_fits
                                          v.pdl_index_fits)
                                        (Saves-pure _))))))))))))))))

    pub Saves-head :
        IsHeld n before h
        → Saves n (save_to_geometry h) (load_to_geometry before) (loaded_over before h)
    unfolding load_to_geometry
    Saves-head v =
        let s = load_at-save v in
        record {
          encoding = s.encoding;
          puts = s.puts;
          gets = λ tail.
              ap (λ b. load_at b before (reader n (s.encoding ++ tail))) (sym v.width_is)
              ∙ s.gets tail;
        }

    save-new : IsHeld n before h → save_to_geometry h new ≡ save_to_geometry h (writer n [])
    unfolding save_to_geometry
    save-new v = refl

-- What `save` writes of a machine up to its geometry, into a new checkpoint, `load_to_geometry`
-- takes back to the last byte, as the same machine over the one it is loaded into: the arrays,
-- the registers, the pointers, the geometry, the timers, the macro dispatch memory, the real-time
-- clock and the file device, with what a narrow machine does not have left as it was. The machine is one of
-- the four geometries' with its numbers in their types, and neither ring of its file device has more
-- than 256 entries.
pub load_to_geometry-save :
    (n : ℕ) (before h : Head)
    → IsHeld n before h
    → to_the_end (load_to_geometry before) (reader n (save_to_geometry h new).out)
      ≡ ok (loaded_over before h, reader n [])
load_to_geometry-save n before h v =
    ap (λ w. to_the_end (load_to_geometry before) (reader n w.out)) (save-new n before h v)
    ∙ Saves-whole (Saves-head n before h v)
