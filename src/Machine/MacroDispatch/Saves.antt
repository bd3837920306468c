-- ===== src/Machine/MacroDispatch/Saves.antt =====
-- src/machine.rs: the macro dispatch memory into a checkpoint, and back.
use muir.Base.{ℕ, ◌^◌, ◌≤◌, ◌<◌, ◌≡◌, ap₂, ◌∙◌, false, IfSome, AllBelow, ap, arith}
use muir.Base.{leb, if◌then◌else◌, low_bits, subst}
use muir.Base.Memory.{Memory, table, of_list, length-table}
use muir.Checkpoint.{bad_index}
use muir.Checkpoint.Writer.{Put, ◌>>◌}
use muir.Checkpoint.Writer
use muir.Checkpoint.Reader.{Get, ◌>>=◌, pure, fail}
use muir.Checkpoint.Reader
use muir.Checkpoint.Codec.{Saves, Saves-seq, Saves-here, Saves-pure_of, reader}
use muir.Checkpoint.Codec.Fields.{Saves-bool, Saves-u8, Saves-u16, Saves-u32, Saves-word}
use muir.Checkpoint.Codec.Sequences.{Saves-opt, Saves-u32s_into}
use muir.Machine.MacroDispatch.{MacroDispatch, Operand, entries_count}

abbrev put_operand : Operand → Put
put_operand o = do Writer.bool o.arg; Writer.u8 o.delta

abbrev get_operand : Get Operand
get_operand = do
  arg ← Reader.bool
  delta ← Reader.u8
  pure (record { arg = arg; delta = low_bits delta 6 })

unfoldable pub save : MacroDispatch → Put
save d = do
  Writer.u32 d.register
  Writer.u16 d.index
  Writer.u32s (table d.entries 0 entries_count)
  Writer.u32 d.localp
  Writer.u32 d.ap
  Writer.opt d.armed put_operand
  Writer.opt d.m31 Writer.word

-- The index is checked once the fields are taken.
abbrev checked : MacroDispatch → Get MacroDispatch
checked d = if leb entries_count d.index then fail (bad_index d.index) else pure d

unfoldable pub load : Get MacroDispatch
load = do
  register ← Reader.u32
  index ← Reader.u16
  entries ← Reader.u32s_into entries_count
  localp ← Reader.u32
  ap ← Reader.u32
  armed ← Reader.opt get_operand
  m31 ← Reader.opt Reader.word
  checked (record {
    register = register;
    index = index;
    entries = of_list entries;
    localp = low_bits localp 14;
    ap = low_bits ap 14;
    armed = armed;
    m31 = m31;
  })

-- The registers' widths, with words of `n` bytes.
pub record IsHeld (n : ℕ) (d : MacroDispatch) : Type 0 where
  pub register_fits : d.register < 2 ^ 32
  pub index_fits : d.index < entries_count
  pub entries_fit : AllBelow (2 ^ 32) (table d.entries 0 entries_count)
  pub localp_fits : d.localp < 2 ^ 14
  pub ap_fits : d.ap < 2 ^ 14
  pub armed_fits : IfSome (λ o. o.delta < 2 ^ 6) d.armed
  pub m31_fits : IfSome (λ v. v < (2 ^ 8) ^ n) d.m31

-- What a resume has: the same registers, and the entries a checkpoint has.
abbrev pub resumed : MacroDispatch → MacroDispatch
resumed d = record d { entries = of_list (table d.entries 0 entries_count) }

checked-pure : (raw d : MacroDispatch) → raw ≡ d → d.index < entries_count → checked raw ≡ pure d
checked-pure raw d e h =
    let b : leb entries_count d.index ≡ false = ground arith in
    ap checked e ∙ ap (λ t. if t then fail (bad_index d.index) else pure d) b

resumed-masked :
    (d : MacroDispatch)
    → d.localp < 2 ^ 14
    → d.ap < 2 ^ 14
    → record d {
      entries = of_list (table d.entries 0 entries_count);
      localp = low_bits d.localp 14;
      ap = low_bits d.ap 14;
    }
      ≡ resumed d
resumed-masked d l a =
    ap₂ (λ x y. record (resumed d) { localp = x; ap = y }) (omega arith) (omega arith)

module _ (n : ℕ) where
  Saves-operand : (o : Operand) → o.delta < 2 ^ 6 → Saves n (put_operand o) get_operand o
  Saves-operand o h = Saves-seq _ (Saves-bool n o.arg) (
      Saves-seq _ (Saves-u8 n o.delta)
        (Saves-pure_of (ap (λ k. record o { delta = k }) (omega arith))))

  Saves-entries :
      (f : Memory)
      → AllBelow (2 ^ 32) (table f 0 entries_count)
      → Saves n
          (Writer.u32s (table f 0 entries_count))
          (Reader.u32s_into entries_count)
          (table f 0 entries_count)
  Saves-entries f h =
      let e = length-table f 0 entries_count in
      subst
        (λ k.
          Saves n (Writer.u32s (table f 0 entries_count)) (Reader.u32s_into k)
            (table f 0 entries_count))
        e (Saves-u32s_into n (table f 0 entries_count) (omega arith) h)

  -- The checkpoint of a macro dispatch memory whose registers are in range is loaded as the same
  -- registers and the same 1,024 entries.
  pub load-save : (d : MacroDispatch) → n ≤ 8 → IsHeld n d → Saves n (save d) load (resumed d)
  unfolding save load
  load-save d p h =
      let e = resumed-masked d h.localp_fits h.ap_fits in
      let index = h.index_fits in
      let localp = h.localp_fits in
      let a = h.ap_fits in
      Saves-seq _ (Saves-u32 n d.register h.register_fits) (
        Saves-seq _ (Saves-u16 n d.index (omega arith)) (
          Saves-seq _ (Saves-entries d.entries h.entries_fit) (
            Saves-seq _ (Saves-u32 n d.localp (omega arith)) (
              Saves-seq _ (Saves-u32 n d.ap (omega arith)) (
                Saves-seq _ (Saves-opt _ Saves-operand d.armed h.armed_fits) (
                  Saves-seq _ (Saves-opt _ (λ v b. Saves-word n v p b) d.m31 h.m31_fits) (
                    Saves-here (λ tail.
                      ap (λ g. g (reader n tail)) (checked-pure _ (resumed d) e index)))))))))
