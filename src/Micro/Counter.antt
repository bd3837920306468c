-- ===== src/Micro/Counter.antt =====
-- src/micro.rs: the location counter, with the flags that the engine keeps above it.
pub mod Stream
mod Examples
use muir.Base.{
  ℕ, ◌+◌, ◌-◌, ◌*◌, ◌/◌, ◌%◌, ◌^◌, bit_or, Bool, true, false, not, ◌&&◌, ◌||◌, bit, of_bool,
}
use muir.Base.{if◌then◌else◌, Option, some, none, ◌<<<◌, ◌>>>◌, low_bits}
use muir.Machine.Geometry.{Geometry, wide, lc_counter_bits}

pub record Counter : Type 0 where
  pub lc : ℕ
  pub interrupt_control : ℕ
  pub next_instr : Bool
  pub next_instrd : Bool

abbrev pub byte_mode : Counter → Bool
byte_mode c = bit c.interrupt_control 29

abbrev pub needfetch : Counter → Bool
needfetch c = bit c.lc 31

-- `v & !counter`, what lies above the low `k` bits.
abbrev pub above : ℕ → ℕ → ℕ
above v k = (v >>> k) * 2 ^ k

-- `v & (0o17 << 26)`
abbrev pub four_flags : ℕ → ℕ
four_flags v = low_bits (v >>> 26) 4 <<< 26

abbrev pub increment : Bool → ℕ
increment byte_mode = if byte_mode then 1 else 2

-- The counter stepped, without the flags.
unfoldable pub stepped : Geometry → Counter → ℕ
stepped g c = let k = lc_counter_bits g in low_bits (low_bits c.lc k + increment (byte_mode c)) k

-- Whether the counter stands at the last byte of a word: 1E07 and 3E17.
abbrev pub last_byte_in_word : Bool → ℕ → Bool
last_byte_in_word byte_mode lc = not (byte_mode && bit lc 0) && not (bit lc 1)

-- `step_lc`: the counter after it, and the word address of the fetch that it starts.
unfoldable pub step_lc : Geometry → Counter → Counter × Option ℕ
unfolding stepped
step_lc g c =
    let k = lc_counter_bits g in
    let lc = bit_or (above c.lc k) (stepped g c) in
    let cleared = if bit lc 31 then low_bits lc 31 else lc in
    let after =
      if last_byte_in_word (byte_mode c) cleared then bit_or cleared (1 <<< 31) else cleared in
    (record c { lc = after }, if bit lc 31 then some (low_bits c.lc k >>> 2) else none)

-- Functional destination 1.
unfoldable pub write_lc : Geometry → Counter → ℕ → Counter
write_lc g c value =
    let k = lc_counter_bits g in
    let lc = bit_or (above c.lc k) (low_bits value k) in
    let even = if byte_mode c then lc else above lc 1 in record c { lc = bit_or even (1 <<< 31) }

-- Functional destination 2, past the bus reset: on a wide machine the flags alone.
unfoldable pub write_interrupt_control : Geometry → Counter → ℕ → Counter
write_interrupt_control g c word =
    if wide g
    then record c { interrupt_control = four_flags (low_bits (word >>> 8) 32) }
    else let value = low_bits word 32 in
      record c {
        interrupt_control = value;
        lc = bit_or (above c.lc 30 + low_bits c.lc 26) (four_flags value);
      }

-- Functional source 13.
unfoldable pub read_lc : Geometry → Counter → ℕ
read_lc g c =
    if wide g
    then bit_or (bit_or (of_bool (needfetch c) <<< 39) (four_flags c.interrupt_control <<< 8))
        (let counter = low_bits c.lc 30 in if byte_mode c then counter else above counter 1)
    else (if byte_mode c then c.lc else above c.lc 1)
