-- ===== src/Micro/Stack.antt =====
-- src/micro.rs: the microcode stack as a microcycle sees it, its write landing in the next.
pub mod Calls
mod Examples
use muir.Base.{
  ℕ, ◌+◌, ◌-◌, ◌/◌, ◌%◌, ◌^◌, Bool, true, false, not, ◌&&◌, ◌==◌, bit, if◌then◌else◌, Option,
}
use muir.Base.{some, none, low_bits}
use muir.Base.Memory.{Memory, update}

-- The machine's stack and pointer, and the engine's pending write and flags of a microcycle.
pub record Stack : Type 0 where
  pub spcptr : ℕ
  pub spc : Memory
  pub spc_write : Option (ℕ × ℕ)
  pub pushed : Bool
  pub spc_pushed : Bool
  pub spc_popped : Bool

abbrev pub up : ℕ → ℕ
up ptr = low_bits (ptr + 1) 5

-- `spcptr.wrapping_sub(1) & 0o37` on a byte.
abbrev pub down : ℕ → ℕ
down ptr = low_bits ((ptr + 2 ^ 8 - 1) % 2 ^ 8) 5

-- The stack's part of `land_writes`.
unfoldable pub land_spc : Stack → Stack
land_spc s = elim s.spc_write [
  | none ↦ s
  | some (ptr, word) ↦ record s { spc = update s.spc ptr word; spc_write = none }
]

unfoldable pub push_spc : Stack → ℕ → Stack
push_spc s word =
    let ptr = up (if s.spc_popped then up s.spcptr else s.spcptr) in
    record s { pushed = true; spc_pushed = true; spcptr = ptr; spc_write = some (ptr, word) }

-- The word at the pointer: the one that the write to land will put there, or the memory's.
abbrev pub top_word : Option (ℕ × ℕ) → Memory → ℕ → ℕ
top_word none spc ptr = spc ptr
top_word (some (p, word)) spc ptr = if p == ptr then word else spc ptr

unfoldable pub pop_spc : Stack → ℕ × Stack
pop_spc s =
    if s.spc_pushed
    then (s.spc (down s.spcptr), record s { spc_popped = true })
    else if s.spc_popped
    then (s.spc (up s.spcptr), s)
    else (
      top_word s.spc_write s.spc s.spcptr,
      record s { spcptr = down s.spcptr; spc_popped = true },
    )

unfoldable pub ignpopj : Stack → ℕ → Stack
ignpopj s entry =
    if not (bit entry 16) && s.spc_popped
    then record s { spcptr = up s.spcptr; spc_popped = false }
    else s

-- The flags at the start of a microcycle.
abbrev pub begin : Stack → Stack
begin s = record s { pushed = false; spc_pushed = false; spc_popped = false }
