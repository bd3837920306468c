-- ===== src/Machine/MacroDispatch.antt =====
-- src/machine.rs, `macro_dispatch` and `MacroDispatch`: QUUX's macro dispatch memory.
pub mod Copies
pub mod Fusion
pub mod Saves
use muir.Base.{
  ℕ, ◌+◌, ◌-◌, ◌*◌, ◌/◌, ◌%◌, ◌^◌, bit_or, Bool, true, false, not, ◌&&◌, ◌||◌, ◌==◌, bit,
}
use muir.Base.{if◌then◌else◌, Option, some, none, ◌<<<◌, ◌>>>◌, low_bits}
use muir.Base.Memory.{Memory, update}

abbrev pub entries_count : ℕ
entries_count = 1024

-- `ENABLE | (ap & 0o37) << 24 | (localp & 0o1777) << 14 | main & 0o37777`
unfoldable pub register_word : ℕ → ℕ → ℕ → ℕ
register_word main localp ap =
    bit_or (bit_or (bit_or (1 <<< 31) (low_bits ap 5 <<< 24)) (low_bits localp 10 <<< 14))
      (low_bits main 14)

abbrev pub main : ℕ → ℕ
main register = low_bits register 14

abbrev pub localp_address : ℕ → ℕ
localp_address register = low_bits (register >>> 14) 10

abbrev pub ap_address : ℕ → ℕ
ap_address register = low_bits (register >>> 24) 5

abbrev pub index_rotate : Bool → ℕ
index_rotate wide = if wide then 40 - 6 else 32 - 6

pub record Operand : Type 0 where
  pub arg : Bool
  pub delta : ℕ

abbrev pub local_register : ℕ
local_register = 5

abbrev pub arg_register : ℕ
arg_register = 6

-- `as u8 & 0o77` keeps six bits.
unfoldable pub operand : ℕ → ℕ → ℕ → Option Operand
operand entry rotated rotate =
    let register = low_bits rotated 3 in
    if bit entry 17 && (register == local_register || register == arg_register)
    then some (record { arg = register == arg_register; delta = low_bits (rotated >>> rotate) 6 })
    else none

pub record Fused : Type 0 where
  pub handler : ℕ
  pub keep : Bool
  pub armed : Option Operand

-- The entries are a memory, read and written at ten bits of index. The count of fused returns,
-- kept for a profile, is left out.
pub record MacroDispatch : Type 0 where
  pub register : ℕ
  pub index : ℕ
  pub entries : Memory
  pub localp : ℕ
  pub ap : ℕ
  pub armed : Option Operand
  pub m31 : Option ℕ

-- `register &= !ENABLE`: bit 31 of the 32 cleared.
unfoldable pub disable : MacroDispatch → MacroDispatch
disable d = record d { register = low_bits d.register 31 }

unfoldable pub reset : MacroDispatch → MacroDispatch
unfolding disable
reset d = record (disable d) { armed = none; m31 = none }

-- `data & REGISTER_BITS`: bit 31 and the 29 low bits.
abbrev pub register_bits : ℕ → ℕ
register_bits v = bit_or (low_bits (v >>> 31) 1 <<< 31) (low_bits v 29)

-- The three destinations; any other is the source's `unreachable!`.
pub data Destination : Type 0 where
  to_register to_index to_entry : Destination

unfoldable pub write : MacroDispatch → Destination → ℕ → MacroDispatch
write d to_register v = record d { register = register_bits v }
write d to_index v = record d { index = low_bits v 10 }
write d to_entry v = record d { entries = update d.entries d.index (low_bits v 18) }

unfoldable pub a_written : MacroDispatch → ℕ → ℕ → MacroDispatch
a_written d adr v =
    if adr == localp_address d.register then record d { localp = low_bits v 14 } else d

unfoldable pub m_written : MacroDispatch → ℕ → ℕ → MacroDispatch
m_written d adr v = if adr == ap_address d.register then record d { ap = low_bits v 14 } else d

unfoldable pub operand_address : MacroDispatch → Operand → ℕ
operand_address d o = (if o.arg then d.ap + 1 else d.localp) + o.delta

unfoldable pub fused_return : MacroDispatch → ℕ → ℕ → ℕ → Option Fused
unfolding operand
fused_return d popped rotated rotate =
    if not (bit d.register 31) || not (bit popped 14) || not (low_bits popped 14 == main d.register)
    then none
    else let entry = d.entries (low_bits rotated 10) in
      if bit entry 16 || bit entry 15
      then none
      else some (record {
        handler = low_bits entry 14;
        keep = not (bit entry 14);
        armed = operand entry rotated rotate;
      })
