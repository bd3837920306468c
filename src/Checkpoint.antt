-- ===== src/Checkpoint.antt =====
-- src/checkpoint.rs: a machine's state as fixed-width little-endian fields, and the file they
-- are kept in. The errors are values, and `Result` is `io::Result`.
pub mod Writer
pub mod Reader
pub mod Codec
pub mod Ensures
pub mod Packing
pub mod File
mod Examples
use muir.Base.{ℕ, ◌+◌, ◌/◌, Bool, true, false}

-- What a checkpoint is refused for, with the number its message names. `out_of_fuel` is of no
-- file: it marks a loop's fuel used up.
pub data Error : Type 0 where
  file_ends_early bad_flag bad_speed bad_level left_over zeros_past bad_version : ℕ → Error
  bad_spc_pointer bad_pdl_pointer bad_pdl_index bad_geometry : ℕ → Error
  no_such_width bad_write_out bad_index bad_set bad_port_state : ℕ → Error
  wrong_count bad_word_bits : ℕ → ℕ → Error
  count_runs_off count_too_long literals_run_off not_a_checkpoint bad_name : Error
  bad_cache_config bad_ring out_of_fuel : Error

-- `width bits`: how many bytes a word of `bits` takes, `bits.div_ceil(8)`.
abbrev pub width : ℕ → ℕ
width bits = (bits + 7) / 8

-- `io::Result`, with the errors above.
pub data Result {ℓ} (T : Type ℓ) : Type ℓ where
  ok : T → Result T
  err : Error → Result T

abbrev pub guard : Bool → Error → Result (Unit {0})
guard false refused = err refused
guard true refused = ok tt

infixl 5 ◌>>=◌
abbrev pub ◌>>=◌ {ℓ κ} : {T : Type ℓ} {U : Type κ} → Result T → (T → Result U) → Result U
err refused >>= k = err refused
ok value >>= k = k value

infixl 5 ◌>>◌
abbrev pub ◌>>◌ {κ} : {U : Type κ} → Result (Unit {0}) → Result U → Result U
first >> next = first >>= λ done. next
