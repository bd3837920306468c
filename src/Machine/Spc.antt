-- ===== src/Machine/Spc.antt =====
-- src/machine.rs, `push_spc` and `pop_spc`: the microcode stack, a ring of 32 words.
pub mod Stack
mod Examples
use muir.Base.{ℕ, ◌+◌, ◌-◌, ◌%◌, ◌^◌, low_bits, List, [], ◌∷◌}
use muir.Base.Memory.{Memory, update}

pub record Spc : Type 0 where
  pub spcptr : ℕ
  pub spc : Memory

unfoldable pub push_spc : Spc → ℕ → Spc
push_spc s pc = let p = low_bits (s.spcptr + 1) 5 in record { spcptr = p; spc = update s.spc p pc }

-- `spcptr.wrapping_sub(1)` wraps at eight bits, of which five are kept.
unfoldable pub pop_spc : Spc → ℕ × Spc
pop_spc s = (s.spc s.spcptr, record s { spcptr = low_bits ((s.spcptr + 2 ^ 8 - 1) % 2 ^ 8) 5 })
