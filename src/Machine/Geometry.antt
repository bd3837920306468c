-- ===== src/Machine/Geometry.antt =====
-- src/machine.rs, `Geometry`: what differs between the CADR and QUUX's revisions.
mod Examples
use muir.Base.{
  ℕ, ◌+◌, ◌-◌, ◌*◌, ◌/◌, ◌^◌, bit_or, Bool, true, false, ltb, if◌then◌else◌, Option, some, none,
}
use muir.Base.{◌<<<◌, ◌>>>◌, low_bits}

pub record Geometry : Type 0 where
  pub word_bits : ℕ
  pub l1_bits : ℕ
  pub pdl_bits : ℕ
  pub machine_id : Option ℕ
  pub has_muldiv : Bool
  pub has_tick : Bool
  pub speed_bits : Bool
  pub old_word_while_written : Bool
  pub hangs : Bool
  pub prom_base : Option ℕ
  pub unibus : Bool
  pub has_rtc : Bool
  pub has_file_device : Bool
  pub has_macro_dispatch : Bool

abbrev pub cadr : Geometry
cadr = record {
  word_bits = 32;
  l1_bits = 5;
  pdl_bits = 10;
  machine_id = none;
  has_muldiv = false;
  has_tick = false;
  speed_bits = true;
  old_word_while_written = false;
  hangs = true;
  prom_base = none;
  unibus = true;
  has_rtc = false;
  has_file_device = false;
  has_macro_dispatch = false;
}

-- MACHINE-ID of a revision: `(0x5155 << 16) | (revision << 4) | 4`.
abbrev pub id_of : ℕ → ℕ
id_of r = bit_or (bit_or (0x5155 <<< 16) (r <<< 4)) 4

abbrev pub quux_prom_base : ℕ
quux_prom_base = 0o36000

abbrev pub quux : Geometry
quux = record {
  word_bits = 32;
  l1_bits = 6;
  pdl_bits = 14;
  machine_id = some (id_of 12);
  has_muldiv = true;
  has_tick = true;
  speed_bits = false;
  old_word_while_written = true;
  hangs = false;
  prom_base = some quux_prom_base;
  unibus = false;
  has_rtc = true;
  has_file_device = true;
  has_macro_dispatch = true;
}

abbrev pub quux_11 : Geometry
quux_11 = record quux { machine_id = some (id_of 11); has_macro_dispatch = false }

abbrev pub quux_13 : Geometry
quux_13 = record quux { word_bits = 40; l1_bits = 7; machine_id = some (id_of 13) }

unfoldable pub revision : Geometry → Option ℕ
revision g = elim g.machine_id [ none ↦ none | some id ↦ some (low_bits (id >>> 4) 12) ]

unfoldable pub wide : Geometry → Bool
wide g = ltb 32 g.word_bits

abbrev pub main_words : ℕ
main_words = 2 * 1024 * 1024

abbrev pub main_words_13 : ℕ
main_words_13 = 32 * 1024 * 1024

abbrev pub max_main_words_13 : ℕ
max_main_words_13 = 64 * 1024 * 1024

abbrev pub max_memory_boards_cadr : ℕ
max_memory_boards_cadr = (0o36000 <<< 8) >>> 16

unfoldable pub default_memory_boards : Geometry → ℕ
unfolding wide
default_memory_boards g = (if wide g then main_words_13 else main_words) >>> 16

unfoldable pub max_memory_boards : Geometry → ℕ
unfolding wide
max_memory_boards g = if wide g then max_main_words_13 >>> 16 else max_memory_boards_cadr

-- The range `1..=max_memory_boards >> 4`, by its end.
unfoldable pub main_memory_mw : Geometry → ℕ
unfolding max_memory_boards
main_memory_mw g = max_memory_boards g >>> 4

unfoldable pub word_mask : Geometry → ℕ
word_mask g = (1 <<< g.word_bits) - 1

unfoldable pub dmem_words : Geometry → ℕ
unfolding wide
dmem_words g = if wide g then 4096 else 2048

-- The counter's bits: `LC_COUNTER` and `LC_COUNTER_13` are masks of so many ones.
unfoldable pub lc_counter_bits : Geometry → ℕ
unfolding wide
lc_counter_bits g = if wide g then 30 else 26

unfoldable pub lvmo_at_power_on : Geometry → ℕ
unfolding wide
lvmo_at_power_on g =
    if wide g
    then bit_or (bit_or (1 <<< 27) (1 <<< 26)) 0o777777
    else bit_or (bit_or (1 <<< 23) (1 <<< 22)) 0x3fff

-- `v & pdl_mask()`
abbrev pub pdl_masked : Geometry → ℕ → ℕ
pdl_masked g v = low_bits v g.pdl_bits
