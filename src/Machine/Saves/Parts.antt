-- ===== src/Machine/Saves/Parts.antt =====
-- The arrays, the registers and what a checkpoint says of the geometry are read back as they were
-- written.
use muir.Base.{ℕ, ◌^◌, ◌≤◌, ◌<◌, ◌≡◌, refl, arith, Bool, true, false, ◌++◌, AllBelow, List}
use muir.Base.{length, take, drop, not, if◌then◌else◌, ◌==◌, ==_refl, subst, sym}
use muir.Checkpoint.Codec.{Saves, Saves-seq, Saves-pure, Saves-here}
use muir.Checkpoint.Codec.Fields.{Saves-bool, Saves-u8, Saves-u16, Saves-u32, Saves-word}
use muir.Machine.Geometry.{Geometry, wide}
use muir.Machine.Saves.{
  sizes, put_arrays, get_arrays, put_registers, get_registers, put_wide, get_wide, said_checked,
  put_geometry, get_codes,
}
use muir.Machine.Saves.State.{Arrays, Registers, codes}
use muir.Machine.Saves.Fields.{Fills, Saves-u32s_slot, Saves-words_slot}

-- The arrays of a machine as those of the machine that is loaded into, with words of `n` bytes.
pub record ArraysHeld (n : ℕ) (is_wide : Bool) (before a : Arrays) : Type 0 where
  pub amem_fills : Fills a.amem (length before.amem)
  pub mmem_fills : Fills a.mmem (length before.mmem)
  pub dmem_fills : length (take (sizes is_wide 4096) a.dmem) ≡ sizes is_wide 4096
  pub pdl_fills : Fills a.pdl (length before.pdl)
  pub spc_fills : Fills a.spc (length before.spc)
  pub l1_map_fills : length (take (sizes is_wide 8192) a.l1_map) ≡ sizes is_wide 8192
  pub amem_fits : AllBelow ((2 ^ 8) ^ n) a.amem
  pub mmem_fits : AllBelow ((2 ^ 8) ^ n) a.mmem
  pub dmem_fits : AllBelow (2 ^ 32) (take (sizes is_wide 4096) a.dmem)
  pub pdl_fits : AllBelow ((2 ^ 8) ^ n) a.pdl
  pub spc_fits : AllBelow (2 ^ 32) a.spc
  pub l1_map_fits : AllBelow (2 ^ 32) (take (sizes is_wide 8192) a.l1_map)

pub record RegistersHeld (n : ℕ) (r : Registers) : Type 0 where
  pub q_fits : r.q < (2 ^ 8) ^ n
  pub opc_fits : r.opc < 2 ^ 16
  pub lc_fits : r.lc < 2 ^ 32
  pub vma_fits : r.vma < (2 ^ 8) ^ n
  pub md_fits : r.md < (2 ^ 8) ^ n
  pub interrupt_control_fits : r.interrupt_control < 2 ^ 32
  pub dispatch_constant_fits : r.dispatch_constant < 2 ^ 16

pub sizes-lt : (b : Bool) (big : ℕ) → big < 2 ^ 64 → sizes b big < 2 ^ 64
sizes-lt true big h = h
sizes-lt false big h = omega arith

-- The first words from the one, the rest from the other.
abbrev pub over : ℕ → List ℕ → List ℕ → List ℕ
over k xs before = take k xs ++ drop k before

-- The arrays but the level-1 map, which comes after the registers.
abbrev pub arrays_over : Bool → Arrays → Arrays → Arrays
arrays_over is_wide before a = record a {
  dmem = over (sizes is_wide 4096) a.dmem before.dmem;
  l1_map = before.l1_map;
}

module _ (n : ℕ) where
  pub Saves-arrays :
      (g : Geometry) (before a : Arrays)
      → n ≤ 8
      → ArraysHeld n (wide g) before a
      → Saves n (put_arrays g a) (get_arrays (wide g) before) (arrays_over (wide g) before a)
  unfolding put_arrays get_arrays
  Saves-arrays g before a p h =
      let k = sizes (wide g) 4096 in
      Saves-seq _
        (Saves-words_slot n a.amem (length before.amem) p h.amem_fills.0 h.amem_fills.1 h.amem_fits)
        (Saves-seq _
          (Saves-words_slot n a.mmem (length before.mmem) p h.mmem_fills.0 h.mmem_fills.1
            h.mmem_fits)
          (Saves-seq _
            (Saves-u32s_slot n (take k a.dmem) k h.dmem_fills (sizes-lt (wide g) 4096 (omega arith))
              h.dmem_fits)
            (Saves-seq _
              (Saves-words_slot n a.pdl (length before.pdl) p h.pdl_fills.0 h.pdl_fills.1
                h.pdl_fits)
              (Saves-seq _
                (Saves-u32s_slot n a.spc (length before.spc) h.spc_fills.0 h.spc_fills.1 h.spc_fits)
                (Saves-pure _)))))

  pub Saves-registers :
      (r : Registers) → n ≤ 8 → RegistersHeld n r → Saves n (put_registers r) get_registers r
  unfolding put_registers get_registers
  Saves-registers r p h = Saves-seq _ (Saves-word n r.q p h.q_fits) (
      Saves-seq _ (Saves-u16 n r.opc h.opc_fits) (
        Saves-seq _ (Saves-u32 n r.lc h.lc_fits) (
          Saves-seq _ (Saves-word n r.vma p h.vma_fits) (
            Saves-seq _ (Saves-word n r.md p h.md_fits) (
              Saves-seq _ (Saves-u32 n r.interrupt_control h.interrupt_control_fits) (
                Saves-seq _ (Saves-u16 n r.dispatch_constant h.dispatch_constant_fits)
                  (Saves-pure r)))))))

  said_checked-same : (bits : ℕ) → Saves n (λ w. w) (said_checked bits bits) tt
  said_checked-same bits = Saves-here (λ tail. rw (==_refl bits) refl)

  -- The overflow flag that is loaded.
  Saves-wide :
      (b : Bool) (g : Geometry) (before overflow : Bool)
      → Saves n
          (put_wide b g overflow)
          (get_wide b g.word_bits before)
          (if b then overflow else before)
  Saves-wide false g before overflow = Saves-pure before
  Saves-wide true g before overflow = Saves-seq _ (Saves-u8 n g.word_bits) (
      Saves-seq {g = said_checked g.word_bits g.word_bits} _ (said_checked-same g.word_bits)
        (Saves-bool n overflow))

  pub Saves-codes :
      (g : Geometry) (before overflow : Bool)
      → not (g.word_bits == 32) ≡ wide g
      → Saves n
          (put_geometry g overflow)
          (get_codes g.word_bits before)
          (codes g, if wide g then overflow else before)
  unfolding put_geometry get_codes
  Saves-codes g before overflow e =
      let w =
        subst
          (λ b.
            Saves n (put_wide (wide g) g overflow) (get_wide b g.word_bits before)
              (if wide g then overflow else before))
          (sym e) (Saves-wide (wide g) g before overflow) in
      Saves-seq _ (Saves-u8 n g.l1_bits) (
        Saves-seq _ (Saves-u8 n g.pdl_bits) (
          Saves-seq _ (Saves-bool n g.has_muldiv) (
            Saves-seq _ (Saves-bool n g.has_tick)
              (Saves-seq _ (Saves-bool n g.has_macro_dispatch) (Saves-seq _ w (Saves-pure _))))))
