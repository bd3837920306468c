-- ===== src/Video/Sync.antt =====
-- src/tv/sync.rs: the sync program's instructions, and what a run of the program answers about
-- the signals and the clears of the memory address. The run itself (`Timeline::of`) is not
-- modelled: a `Timeline` is taken as given.
pub mod Periods
mod Examples
use muir.Base.{
  ℕ, zero, suc, ◌+◌, ◌*◌, ◌/◌, ◌%◌, ◌^◌, ◌-◌, Bool, true, false, bit, leb, ltb, low_bits, ◌>>>◌,
}
use muir.Base.{List, [], ◌∷◌, length, get_or, if◌then◌else◌}

-- `INSTRUCTION_NS`, by the mode.
abbrev pub instruction_ns : List ℕ
instruction_ns = 500 ∷ 500 ∷ 625 ∷ 625 ∷ []

pub data Cycle : Type 0 where
  processor refresh video end_of_line : Cycle

pub data Special : Type 0 where
  no_special tvma_clear end_of_loop end_of_program : Special

abbrev pub hsync : ℕ → Bool
hsync word = bit word 0

abbrev pub vsync : ℕ → Bool
vsync word = bit word 1

abbrev pub composite : ℕ → Bool
composite word = bit word 2

abbrev pub blank : ℕ → Bool
blank word = bit word 3

abbrev pub cycle_of : ℕ → Cycle
cycle_of zero = processor
cycle_of (suc zero) = refresh
cycle_of (suc (suc zero)) = video
cycle_of (suc (suc (suc n))) = end_of_line

abbrev pub cycle : ℕ → Cycle
cycle word = cycle_of (low_bits (word >>> 4) 2)

abbrev pub special_of : ℕ → Special
special_of zero = no_special
special_of (suc zero) = tvma_clear
special_of (suc (suc zero)) = end_of_loop
special_of (suc (suc (suc n))) = end_of_program

abbrev pub special : ℕ → Special
special word = special_of (low_bits (word >>> 6) 2)

pub record Line : Type 0 where
  pub at_ns : ℕ
  pub instructions : ℕ
  pub video_cycles : ℕ
  pub blanked : Bool

-- A change of the two sync signals: its time, and the signals from it on.
abbrev pub Change : Type 0
Change = ℕ × Bool × Bool

pub record Timeline : Type 0 where
  pub period_ns : ℕ
  pub instructions : ℕ
  pub changes : List Change
  pub tvma_clr : List ℕ
  pub lines : List Line

-- The signals at the last change at or before the offset, of the changes in order; before the
-- first, what is given.
unfoldable pub signals_at : List Change → ℕ → Bool × Bool → Bool × Bool
signals_at [] offset before = before
signals_at ((t, h, v) ∷ rest) offset before =
    if leb t offset then signals_at rest offset (h, v) else before

-- The signals of the last change.
abbrev pub last_signals : List Change → Bool × Bool → Bool × Bool
last_signals [] before = before
last_signals ((t, h, v) ∷ rest) before = last_signals rest (h, v)

unfoldable pub sync_at : Timeline → ℕ → Bool × Bool
unfolding signals_at
sync_at t offset =
    signals_at t.changes (offset % t.period_ns) (last_signals t.changes (false, false))

abbrev pub first_change : List Change → ℕ → Bool
first_change [] since_start = false
first_change ((t, h, v) ∷ rest) since_start = ltb since_start t

unfoldable pub sync_at_since_start : Timeline → ℕ → Bool × Bool → Bool × Bool
sync_at_since_start t since_start held =
    if first_change t.changes since_start then held else sync_at t since_start

-- `partition_point(|&c| c <= into)` of times in order.
unfoldable pub passed : List ℕ → ℕ → ℕ
passed [] into = 0
passed (c ∷ cs) into = if leb c into then suc (passed cs into) else 0

unfoldable pub tvma_clrs_by : Timeline → ℕ → ℕ
tvma_clrs_by t since_start =
    since_start / t.period_ns * length t.tvma_clr + passed t.tvma_clr (since_start % t.period_ns)

-- The first clear after an offset into the period, or the first of the next period.
unfoldable pub clear_after : List ℕ → ℕ → ℕ → ℕ
clear_after [] into otherwise = otherwise
clear_after (c ∷ cs) into otherwise = if leb c into then clear_after cs into otherwise else c

abbrev pub never : ℕ
never = 2 ^ 64 - 1

abbrev pub next_of : List ℕ → ℕ → ℕ → ℕ
unfolding clear_after
next_of [] since_start period = never
next_of (first ∷ cs) since_start period =
    since_start / period * period + clear_after (first ∷ cs) (since_start % period) (period + first)

unfoldable pub next_tvma_clr_after : Timeline → ℕ → ℕ
unfolding clear_after
next_tvma_clr_after t since_start = next_of t.tvma_clr since_start t.period_ns
