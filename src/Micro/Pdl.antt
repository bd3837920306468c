-- ===== src/Micro/Pdl.antt =====
-- src/micro.rs: the PDL buffer, its pointer and index, and the write that lands in the next
-- microcycle.
use muir.Base.{ℕ, ◌+◌, ◌-◌, ◌%◌, ◌^◌, Bool, if◌then◌else◌, Option, some, none, low_bits}
use muir.Base.Memory.{Memory, update}

-- Where a write goes: an address, or `PDL_AT_INDEX`, the index when it lands.
pub data PdlAddress : Type 0 where
  at_address : ℕ → PdlAddress
  at_index : PdlAddress

pub record Pdl : Type 0 where
  pub buffer : Memory
  pub pdl_pointer : ℕ
  pub pdl_index : ℕ
  pub pdl_write : Option (PdlAddress × ℕ)

abbrev pub address_of : PdlAddress → ℕ → ℕ
address_of (at_address adr) index = adr
address_of at_index index = index

-- The buffer's part of `land_writes`.
unfoldable pub land_pdl : Pdl → Pdl
land_pdl b = elim b.pdl_write [
  | none ↦ b
  | some (adr, word) ↦ record b {
    buffer = update b.buffer (address_of adr b.pdl_index) word;
    pdl_write = none;
  }
]

-- `pdl_pointer.wrapping_sub(1)` on 16 bits, masked.
abbrev pub pointer_down : ℕ → ℕ → ℕ
pointer_down bits p = low_bits ((p + 2 ^ 16 - 1) % 2 ^ 16) bits

abbrev pub pointer_up : ℕ → ℕ → ℕ
pointer_up bits p = low_bits (p + 1) bits

-- The word that functional sources 4, 5, 24 and 25 read.
abbrev pub word_at : Pdl → Bool → ℕ
word_at b by_pointer = b.buffer (if by_pointer then b.pdl_pointer else b.pdl_index)
