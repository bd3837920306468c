-- ===== src/Machine/Saves.antt =====
-- src/machine.rs, the first part of `Machine::save`, and `Machine::load_to_geometry`, which takes
-- it back.
use muir.Base.{
  ℕ, ◌+◌, ◌*◌, ◌/◌, ◌^◌, Bool, true, false, List, Option, none, some, map, ◌++◌, length,
}
use muir.Base.{take, drop, if◌then◌else◌, ◌==◌, ltb, not, ◌-◌}
use muir.Checkpoint.{bad_spc_pointer, bad_pdl_pointer, bad_pdl_index, bad_geometry, bad_word_bits}
use muir.Checkpoint.Writer.{Put, ◌>>◌, set_word_bits}
use muir.Checkpoint.Writer
use muir.Checkpoint.Reader.{Get, Reader, ◌>>=◌, pure, fail}
use muir.Checkpoint.Reader
use muir.Machine.Geometry.{Geometry, wide}
use muir.Machine.Console.Saves.{
  save_mode, load_mode, save_clock_control, load_clock_control, save_opc_control, load_opc_control,
}
use muir.Machine.Timer.Saves.{save as save_timers, load as load_timers, save_rtc, load_rtc}
use muir.Machine.MacroDispatch.Saves.{save as save_macro_dispatch, load as load_macro_dispatch}
use muir.Machine.FileDevice.{save as save_files, load as load_files}
use muir.Processor.Isa.{Insn, insn}
use muir.Micro.State.{Console}
use muir.Machine.Saves.State.{Arrays, Pointers, Registers, Head, Codes, geometry_of}
pub mod State
pub mod Fields
pub mod Parts
pub mod Loaded
pub mod RoundTrip
mod Examples

unfoldable pub put_insns : List Insn → Put
put_insns is = Writer.u64s (map (λ i. i.raw) is)

-- `insns`, into so many instructions.
unfoldable pub get_insns : ℕ → Get (List Insn)
get_insns slot = do raws ← Reader.u64s_into slot; pure (map insn raws)

unfoldable pub put_console : Console → Put
put_console c = do
  save_mode c.mode
  save_clock_control c.clock_control
  save_opc_control c.opc_control
  Writer.u64 c.debug_ir
  Writer.bool c.prog_reset
  Writer.bool c.prog_boot

unfoldable pub get_console : Get Console
get_console = do
  mode ← load_mode
  clock_control ← load_clock_control
  opc_control ← load_opc_control
  debug_ir ← Reader.u64
  prog_reset ← Reader.bool
  prog_boot ← Reader.bool
  pure (record {
    mode = mode;
    clock_control = clock_control;
    opc_control = opc_control;
    debug_ir = debug_ir;
    prog_reset = prog_reset;
    prog_boot = prog_boot;
  })

-- `sizes`: an array's whole length on a wide machine, by the reader's words.
abbrev pub sizes : Bool → ℕ → ℕ
sizes is_wide big = if is_wide then big else 2048

-- The five arrays before the pointers: the dispatch memory's first words, `dmem_words` of them.
unfoldable pub put_arrays : Geometry → Arrays → Put
put_arrays g a = do
  Writer.words a.amem
  Writer.words a.mmem
  Writer.u32s (take (sizes (wide g) 4096) a.dmem)
  Writer.words a.pdl
  Writer.u32s a.spc

unfoldable pub get_arrays : Bool → Arrays → Get Arrays
get_arrays is_wide a = do
  amem ← Reader.words_into (length a.amem)
  mmem ← Reader.words_into (length a.mmem)
  dmem ← Reader.u32s_into (sizes is_wide 4096)
  pdl ← Reader.words_into (length a.pdl)
  spc ← Reader.u32s_into (length a.spc)
  pure (record a {
    amem = amem;
    mmem = mmem;
    dmem = dmem ++ drop (sizes is_wide 4096) a.dmem;
    pdl = pdl;
    spc = spc;
  })

unfoldable pub put_pointers : Pointers → Put
put_pointers p = do Writer.u8 p.spcptr; Writer.u16 p.pdl_pointer; Writer.u16 p.pdl_index

-- The SPC pointer is held to its five bits when it is read.
abbrev pub spc_checked : ℕ → Get ℕ
spc_checked spcptr = if ltb 0o37 spcptr then fail (bad_spc_pointer spcptr) else pure spcptr

unfoldable pub get_pointers : Get Pointers
get_pointers = do
  v ← Reader.u8
  spcptr ← spc_checked v
  pdl_pointer ← Reader.u16
  pdl_index ← Reader.u16
  pure (record { spcptr = spcptr; pdl_pointer = pdl_pointer; pdl_index = pdl_index })

unfoldable pub put_registers : Registers → Put
put_registers r = do
  Writer.word r.q
  Writer.u16 r.opc
  Writer.u32 r.lc
  Writer.word r.vma
  Writer.word r.md
  Writer.u32 r.interrupt_control
  Writer.u16 r.dispatch_constant

unfoldable pub get_registers : Get Registers
get_registers = do
  q ← Reader.word
  opc ← Reader.u16
  lc ← Reader.u32
  vma ← Reader.word
  md ← Reader.word
  interrupt_control ← Reader.u32
  dispatch_constant ← Reader.u16
  pure (record {
    q = q;
    opc = opc;
    lc = lc;
    vma = vma;
    md = md;
    interrupt_control = interrupt_control;
    dispatch_constant = dispatch_constant;
  })

-- The width and the overflow flag, which only a wider word's checkpoint has.
abbrev pub put_wide : Bool → Geometry → Bool → Put
put_wide true g overflow = do Writer.u8 g.word_bits; Writer.bool overflow
put_wide false g overflow = λ w. w

unfoldable pub put_geometry : Geometry → Bool → Put
put_geometry g overflow = do
  Writer.u8 g.l1_bits
  Writer.u8 g.pdl_bits
  Writer.bool g.has_muldiv
  Writer.bool g.has_tick
  Writer.bool g.has_macro_dispatch
  put_wide (wide g) g overflow

abbrev pub said_checked : ℕ → ℕ → Get (Unit {0})
said_checked word_bits said =
    if not (said == word_bits) then fail (bad_word_bits said word_bits) else pure tt

abbrev pub get_wide : Bool → ℕ → Bool → Get Bool
get_wide false word_bits before = pure before
get_wide true word_bits before = do said ← Reader.u8; _ ← said_checked word_bits said; Reader.bool

-- The codes, and the overflow flag, `before` where the checkpoint has none.
unfoldable pub get_codes : ℕ → Bool → Get (Codes × Bool)
get_codes word_bits before = do
  l1_bits ← Reader.u8
  pdl_bits ← Reader.u8
  muldiv ← Reader.bool
  tick ← Reader.bool
  fused ← Reader.bool
  overflow ← get_wide (not (word_bits == 32)) word_bits before
  pure (
    record {
      word_bits = word_bits;
      l1_bits = l1_bits;
      pdl_bits = pdl_bits;
      muldiv = muldiv;
      tick = tick;
      fused = fused;
    },
    overflow,
  )

abbrev pub machine_of : Codes → Option Geometry → Get Geometry
machine_of c none = fail (bad_geometry c.l1_bits)
machine_of c (some g) = pure g

-- The pointers are held to the PDL buffer that the geometry has.
abbrev pub pointers_checked : Geometry → Pointers → Get (Unit {0})
pointers_checked g p =
    if ltb (2 ^ g.pdl_bits - 1) p.pdl_pointer
    then fail (bad_pdl_pointer p.pdl_pointer)
    else if ltb (2 ^ g.pdl_bits - 1) p.pdl_index
    then fail (bad_pdl_index p.pdl_index)
    else pure tt

unfoldable pub save_to_geometry : Head → Put
save_to_geometry h = do
  set_word_bits h.geometry.word_bits
  put_insns h.prom
  put_insns h.imem
  put_console h.console
  put_arrays h.geometry h.arrays
  put_pointers h.pointers
  put_registers h.registers
  Writer.u32s (take (sizes (wide h.geometry) 8192) h.arrays.l1_map)
  put_geometry h.geometry h.overflow
  save_timers h.timers
  save_macro_dispatch h.macro_dispatch
  save_rtc h.rtc
  save_files h.file_device
  Writer.bool h.dma_written

-- `load_to_geometry`, of words of so many bits, into the machine `h`.
unfoldable pub load_at : ℕ → Head → Get (Head)
load_at word_bits h = do
  prom ← get_insns (length h.prom)
  imem ← get_insns (length h.imem)
  console ← get_console
  arrays ← get_arrays (ltb 32 word_bits) h.arrays
  pointers ← get_pointers
  registers ← get_registers
  l1_map ← Reader.u32s_into (sizes (ltb 32 word_bits) 8192)
  (c, overflow) ← get_codes word_bits h.overflow
  timers ← load_timers
  macro_dispatch ← load_macro_dispatch
  rtc ← load_rtc
  file_device ← load_files
  dma_written ← Reader.bool
  geometry ← machine_of c (geometry_of c)
  _ ← pointers_checked geometry pointers
  pure (record {
    prom = prom;
    imem = imem;
    console = console;
    arrays = record arrays {
      l1_map = l1_map ++ drop (sizes (ltb 32 word_bits) 8192) h.arrays.l1_map;
    };
    pointers = pointers;
    registers = registers;
    geometry = geometry;
    overflow = overflow;
    timers = timers;
    macro_dispatch = macro_dispatch;
    rtc = rtc;
    file_device = file_device;
    dma_written = dma_written;
  })

-- The reader's `word_bits`.
unfoldable pub load_to_geometry : Head → Get (Head)
load_to_geometry h r = load_at (r.word_bytes * 8) h r
