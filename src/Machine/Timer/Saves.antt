-- ===== src/Machine/Timer/Saves.antt =====
-- src/machine.rs: the interval timers and the real-time clock into a checkpoint, and back.
use muir.Base.{ℕ, ◌^◌, ◌<◌, Bool, true, false, Option, none, some, All, length, ◌≡◌, subst}
use muir.Checkpoint.Writer.{Put, ◌>>◌}
use muir.Checkpoint.Writer
use muir.Checkpoint.Reader.{Get, ◌>>=◌, pure}
use muir.Checkpoint.Reader
use muir.Checkpoint.Codec.{Saves, Saves-seq, Saves-pure}
use muir.Checkpoint.Codec.Fields.{Saves-bool, Saves-u32, Saves-u64}
use muir.Checkpoint.Codec.Sequences.{Saves-All}
use muir.Machine.Timer.{IntervalTimer, Timers, Rtc, host, counted}

-- A turn of the loop of `Timers::save`.
unfoldable pub save_timer : IntervalTimer → Put
save_timer t = do
  Writer.bool t.on
  Writer.bool t.one_shot
  Writer.bool t.interrupt_enable
  Writer.u32 t.period_us
  Writer.u64 t.deadline_ns

unfoldable pub save : Timers → Put
save timers = Writer.each save_timer timers

unfoldable pub load_timer : Get IntervalTimer
load_timer = do
  on ← Reader.bool
  one_shot ← Reader.bool
  interrupt_enable ← Reader.bool
  period_us ← Reader.u32
  deadline_ns ← Reader.u64
  pure (record {
    on = on;
    one_shot = one_shot;
    interrupt_enable = interrupt_enable;
    period_us = period_us;
    deadline_ns = deadline_ns;
  })

unfoldable pub load : Get Timers
load = Reader.times 3 load_timer

abbrev counted_parts : Rtc → Option (ℕ × ℕ)
counted_parts host = none
counted_parts (counted start base_ns) = some (start, base_ns)

abbrev put_counted : ℕ × ℕ → Put
put_counted (start, base_ns) = do Writer.u32 start; Writer.u64 base_ns

unfoldable pub save_rtc : Rtc → Put
save_rtc r = Writer.opt (counted_parts r) put_counted

abbrev rtc_of : Bool → Get Rtc
rtc_of false = pure host
rtc_of true = do start ← Reader.u32; base_ns ← Reader.u64; pure (counted start base_ns)

unfoldable pub load_rtc : Get Rtc
load_rtc = Reader.bool >>= rtc_of

-- The fields' widths in the source.
pub record IsTimer (t : IntervalTimer) : Type 0 where
  pub period_fits : t.period_us < 2 ^ 32
  pub deadline_fits : t.deadline_ns < 2 ^ 64

abbrev pub IsRtc : Rtc → Type 0
IsRtc host = Unit {0}
IsRtc (counted start base_ns) = (start < 2 ^ 32) × (base_ns < 2 ^ 64)

module _ (n : ℕ) where
  Saves-timer : (t : IntervalTimer) → IsTimer t → Saves n (save_timer t) load_timer t
  unfolding save_timer load_timer
  Saves-timer t h = Saves-seq _ (Saves-bool n t.on) (
      Saves-seq _ (Saves-bool n t.one_shot) (
        Saves-seq _ (Saves-bool n t.interrupt_enable) (
          Saves-seq _ (Saves-u32 n t.period_us h.period_fits)
            (Saves-seq _ (Saves-u64 n t.deadline_ns h.deadline_fits) (Saves-pure t)))))

  pub Saves-timers :
      (timers : Timers) → length timers ≡ 3 → All IsTimer timers → Saves n (save timers) load timers
  unfolding save load
  Saves-timers timers e h =
      subst (λ k. Saves n (save timers) (Reader.times k load_timer) timers) e
        (Saves-All n IsTimer Saves-timer timers h)

  pub Saves-rtc : (r : Rtc) → IsRtc r → Saves n (save_rtc r) load_rtc r
  unfolding save_rtc load_rtc Writer.opt
  Saves-rtc host h = Saves-seq _ (Saves-bool n false) (Saves-pure host)
  Saves-rtc (counted start base_ns) h = Saves-seq _ (Saves-bool n true) (
      Saves-seq _ (Saves-u32 n start h.0)
        (Saves-seq _ (Saves-u64 n base_ns h.1) (Saves-pure (counted start base_ns))))
