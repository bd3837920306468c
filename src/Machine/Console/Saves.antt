-- ===== src/Machine/Console/Saves.antt =====
-- src/spy.rs: the console's registers into a checkpoint, a flag a bit, and back.
use muir.Base.{ℕ}
use muir.Checkpoint.Writer.{Put, ◌>>◌}
use muir.Checkpoint.Writer
use muir.Checkpoint.Reader.{Get, ◌>>=◌, pure}
use muir.Checkpoint.Reader
use muir.Checkpoint.Codec.{Saves, Saves-seq, Saves-pure}
use muir.Checkpoint.Codec.Fields.{Saves-bool}
use muir.Machine.Console.{Mode, ClockControl, OpcControl}

unfoldable pub save_mode : Mode → Put
save_mode m = do
  Writer.bool m.speed0
  Writer.bool m.speed1
  Writer.bool m.errstop
  Writer.bool m.stathenb
  Writer.bool m.trapenb
  Writer.bool m.prom_disable

unfoldable pub load_mode : Get Mode
load_mode = do
  speed0 ← Reader.bool
  speed1 ← Reader.bool
  errstop ← Reader.bool
  stathenb ← Reader.bool
  trapenb ← Reader.bool
  prom_disable ← Reader.bool
  pure (record {
    speed0 = speed0;
    speed1 = speed1;
    errstop = errstop;
    stathenb = stathenb;
    trapenb = trapenb;
    prom_disable = prom_disable;
  })

unfoldable pub save_clock_control : ClockControl → Put
save_clock_control c = do
  Writer.bool c.run
  Writer.bool c.single_step
  Writer.bool c.nop11
  Writer.bool c.idebug
  Writer.bool c.ldstat

unfoldable pub load_clock_control : Get ClockControl
load_clock_control = do
  run ← Reader.bool
  single_step ← Reader.bool
  nop11 ← Reader.bool
  idebug ← Reader.bool
  ldstat ← Reader.bool
  pure (record {
    run = run;
    single_step = single_step;
    nop11 = nop11;
    idebug = idebug;
    ldstat = ldstat;
  })

unfoldable pub save_opc_control : OpcControl → Put
save_opc_control o = do Writer.bool o.lpc_hold; Writer.bool o.opcclk; Writer.bool o.opcinh

unfoldable pub load_opc_control : Get OpcControl
load_opc_control = do
  lpc_hold ← Reader.bool
  opcclk ← Reader.bool
  opcinh ← Reader.bool
  pure (record { lpc_hold = lpc_hold; opcclk = opcclk; opcinh = opcinh })

module _ (n : ℕ) where
  pub Saves-mode : (m : Mode) → Saves n (save_mode m) load_mode m
  unfolding save_mode load_mode
  Saves-mode m = Saves-seq _ (Saves-bool n m.speed0) (
      Saves-seq _ (Saves-bool n m.speed1) (
        Saves-seq _ (Saves-bool n m.errstop) (
          Saves-seq _ (Saves-bool n m.stathenb) (
            Saves-seq _ (Saves-bool n m.trapenb)
              (Saves-seq _ (Saves-bool n m.prom_disable) (Saves-pure m))))))

  pub Saves-clock_control : (c : ClockControl) → Saves n (save_clock_control c) load_clock_control c
  unfolding save_clock_control load_clock_control
  Saves-clock_control c = Saves-seq _ (Saves-bool n c.run) (
      Saves-seq _ (Saves-bool n c.single_step) (
        Saves-seq _ (Saves-bool n c.nop11) (
          Saves-seq _ (Saves-bool n c.idebug)
            (Saves-seq _ (Saves-bool n c.ldstat) (Saves-pure c)))))

  pub Saves-opc_control : (o : OpcControl) → Saves n (save_opc_control o) load_opc_control o
  unfolding save_opc_control load_opc_control
  Saves-opc_control o =
      Saves-seq _ (Saves-bool n o.lpc_hold)
        (Saves-seq _ (Saves-bool n o.opcclk) (Saves-seq _ (Saves-bool n o.opcinh) (Saves-pure o)))
