-- ===== src/Memory/Port/Shape.antt =====
-- src/memory_port.rs and src/cache.rs: what the port is made of, its times, its reach and its
-- revision's layout.
use muir.Base.{ℕ, Bool, true, false, ◌&&◌, ◌==◌, if◌then◌else◌}
use muir.Memory.Cache.{CacheConfig}

pub record MemoryTiming : Type 0 where
  pub read_ns : ℕ
  pub write_ns : ℕ

-- `MemoryTiming::NOMINAL`, the DE25-Nano's.
abbrev pub nominal : MemoryTiming
nominal = record { read_ns = 380; write_ns = 290 }

pub data Reach : Type 0 where
  to_line to_page : Reach

pub record Prefetched : Type 0 where
  pub vaddr : ℕ
  pub phys : ℕ
  pub word : ℕ

pub data State : Type 0 where
  idle requested : State
  granted acked : (at answered : ℕ) (timed_out : Bool) → State

-- The address mask is the count of its bits.
pub record Layout : Type 0 where
  pub line_words : ℕ
  pub page_words : ℕ
  pub vaddr_bits : ℕ
  pub more_beats : Bool

abbrev pub layout_12 : Layout
layout_12 = record { line_words = 4; page_words = 256; vaddr_bits = 24; more_beats = false }

abbrev pub layout_13 : Layout
layout_13 = record { line_words = 8; page_words = 1024; vaddr_bits = 28; more_beats = true }

-- `Layout::of`, by whether the machine's words are 40 bits.
abbrev pub layout_of : Bool → Layout
layout_of wide = if wide then layout_13 else layout_12

abbrev pub is_layout_13 : Layout → Bool
is_layout_13 l =
    (l.line_words == 8) && (l.page_words == 1024) && (l.vaddr_bits == 28) && l.more_beats

-- `Layout::cache`
abbrev pub layout_cache : Layout → CacheConfig → CacheConfig
layout_cache l config =
    if is_layout_13 l then record config { line_words = l.line_words } else config
