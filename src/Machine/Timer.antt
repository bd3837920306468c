-- ===== src/Machine/Timer.antt =====
-- src/machine.rs, `Rtc`, `IntervalTimer` and `Timers`: QUUX's clocks on the register page.
pub mod Grid
pub mod Page
pub mod Saves
mod Examples
use muir.Base.{ℕ, ◌+◌, ◌-◌, ◌*◌, ◌/◌, ◌%◌, ◌^◌, min, bit_or, List, [], ◌∷◌, Bool, true, false, not}
use muir.Base.{◌&&◌, ◌||◌, Option, some, none, ◌==◌, leb, if◌then◌else◌, bit, of_bool, get_or, set}
use muir.Base.{◌<<<◌, low_bits}

-- `u64::MAX` as a deadline: never.
abbrev pub never : ℕ
never = 2 ^ 64 - 1

-- Addition of `u64`s.
abbrev pub add64 : ℕ → ℕ → ℕ
add64 a b = (a + b) % 2 ^ 64

-- The live clock's second is the host's, given here as an argument of `seconds`.
pub data Rtc : Type 0 where
  host : Rtc
  counted : ℕ → ℕ → Rtc

unfoldable pub seconds : Rtc → ℕ → ℕ → ℕ
seconds host host_seconds ns = min host_seconds (2 ^ 32 - 1)
seconds (counted start base_ns) host_seconds ns =
    min (add64 start ((ns - base_ns) / 1_000_000_000)) (2 ^ 32 - 1)

pub record IntervalTimer : Type 0 where
  pub on : Bool
  pub one_shot : Bool
  pub interrupt_enable : Bool
  pub period_us : ℕ
  pub deadline_ns : ℕ

abbrev pub reset : IntervalTimer
reset = record {
  on = false;
  one_shot = false;
  interrupt_enable = false;
  period_us = 0;
  deadline_ns = never;
}

unfoldable pub flag : IntervalTimer → ℕ → Bool
flag t now = leb t.deadline_ns now

unfoldable pub interrupt : IntervalTimer → ℕ → Bool
interrupt t now = t.interrupt_enable && flag t now

unfoldable pub status : IntervalTimer → ℕ → ℕ
status t now =
    bit_or (bit_or (bit_or (of_bool t.on) (of_bool (flag t now) <<< 1)) (of_bool t.one_shot <<< 2))
      (if t.interrupt_enable then 1 <<< 8 else 0)

unfoldable pub after : ℕ → ℕ → ℕ
after now period_us = if period_us == 0 then never else add64 now (period_us * 1000)

-- The deadline that a clear of a raised flag leaves.
unfoldable pub cleared : IntervalTimer → ℕ → ℕ
cleared t now =
    if t.one_shot || t.period_us == 0
    then never
    else let p = t.period_us * 1000 in add64 (add64 t.deadline_ns ((now - t.deadline_ns) / p * p)) p

unfoldable pub write_control : IntervalTimer → ℕ → ℕ → IntervalTimer
write_control t now v =
    let on = bit v 0 in
    let turned_on = on && not t.on in
    let clears = not turned_on && bit v 1 && flag t now in
    let deadline =
      if turned_on
      then after now t.period_us
      else (if clears then cleared t now else t.deadline_ns) in
    record t {
      one_shot = if turned_on then bit v 2 else t.one_shot;
      deadline_ns = if on then deadline else never;
      on = on;
      interrupt_enable = bit v 8;
    }

unfoldable pub write_period : IntervalTimer → ℕ → ℕ → IntervalTimer
write_period t now v =
    let period = low_bits v 24 in
    record t { period_us = period; deadline_ns = if t.on then after now period else t.deadline_ns }

-- `Timers`: the three timers, in order.
abbrev pub Timers : Type 0
Timers = List IntervalTimer

abbrev pub power_on : Timers
power_on = reset ∷ reset ∷ reset ∷ []

-- The bits of `INTERRUPT_BITS` of the timers whose interrupt is up: timer k's is `1 << k`.
unfoldable pub sources_from : ℕ → Timers → ℕ → ℕ
sources_from k [] now = 0
sources_from k (t ∷ ts) now = (if interrupt t now then 1 <<< k else 0) + sources_from (k + 1) ts now

unfoldable pub interrupt_sources : Timers → ℕ → ℕ
unfolding sources_from
interrupt_sources timers now = sources_from 0 timers now

unfoldable pub pending : Timers → ℕ → Bool
pending [] now = false
pending (t ∷ ts) now = interrupt t now || pending ts now

-- Which timer, and whether its period, a register page word names.
unfoldable pub word : ℕ → Option (ℕ × Bool)
word w = if leb 0o110 w && leb w 0o115 then some ((w - 0o110) / 2, bit w 0) else none

unfoldable pub read : Timers → ℕ → ℕ → Option ℕ
read timers w now = elim (word w) [
  | none ↦ none
  | some (k, period) ↦
      (let t = get_or timers k reset in some (if period then t.period_us else status t now))
]

unfoldable pub write : Timers → ℕ → ℕ → ℕ → Timers × Bool
write timers w v now = elim (word w) [
  | none ↦ (timers, false)
  | some (k, period) ↦
      (let t = get_or timers k reset in
        (set timers k (if period then write_period t now v else write_control t now v), true))
]

unfoldable pub microseconds : ℕ → ℕ
microseconds now = low_bits (now / 1000) 32
