-- ===== src/Micro/Dests.antt =====
-- src/micro.rs, `write_functional` and `write_dest`: where a microinstruction's output goes.
use muir.Base.{ℕ, ◌+◌, ◌*◌, true, not, ◌&&◌, if◌then◌else◌, bit}
use muir.Base.{some, List, [], ◌∷◌, get_or, ◌>>>◌, low_bits}
use muir.Base.Memory.{update}
use muir.Machine.Geometry.{wide, pdl_masked}
use muir.Machine.MacroDispatch.{Destination, to_register, to_index, to_entry, a_written, m_written}
use muir.Micro.Stack.{push_spc}
use muir.Micro.Pdl.{PdlAddress, at_address, at_index, pointer_up}
use muir.Micro.Counter.{write_lc, write_interrupt_control}
use muir.Micro.State.{Devices, Micro, either_of}
use muir.Micro.Port.{dest_code, start_read, start_write, arm_map_write}

pub data Dest : Type 0 where
  nowhere to_lc to_interrupt_control to_spc to_oa_low to_oa_high : Dest
  to_macro_dispatch : Destination → Dest
  pdl_at_pointer pdl_push pdl_at_index to_pdl_index to_pdl_pointer : Dest
  to_vma vma_read vma_write vma_map to_md md_read md_write md_map : Dest

abbrev pub low_dests : List Dest
low_dests =
    nowhere
    ∷ to_lc
    ∷ to_interrupt_control
    ∷ nowhere
    ∷ nowhere
    ∷ to_macro_dispatch to_register
    ∷ to_macro_dispatch to_index
    ∷ to_macro_dispatch to_entry
    ∷ pdl_at_pointer
    ∷ pdl_push
    ∷ pdl_at_index
    ∷ to_pdl_index
    ∷ to_pdl_pointer
    ∷ to_spc
    ∷ to_oa_low
    ∷ to_oa_high
    ∷ []

-- The codes 20 to 23 and 30 to 33, of the bits 4, 3, 1 and 0.
abbrev pub high_dests : List Dest
high_dests = to_vma ∷ vma_read ∷ vma_write ∷ vma_map ∷ to_md ∷ md_read ∷ md_write ∷ md_map ∷ []

unfoldable pub dest_of : ℕ → Dest
unfolding dest_code
dest_of dest =
    let code = dest_code (low_bits (dest >>> 5) 5) in
    if bit code 4
    then get_or high_dests (low_bits (code >>> 3) 1 * 4 + low_bits code 2) nowhere
    else get_or low_dests code nowhere

abbrev pub with_vma : {D : Type 0} → Micro D → ℕ → Micro D
with_vma m word = record m { access = record m.access { vma = word } }

abbrev pub with_md : {D : Type 0} → Micro D → ℕ → Micro D
with_md m word = record m { access = record m.access { md = word } }

abbrev pub with_out : {D : Type 0} → Micro D → ℕ → Micro D
with_out m word = record m { path = record m.path { out = word } }

abbrev pub pdl_written : {D : Type 0} → Micro D → PdlAddress → ℕ → Micro D
pdl_written m adr word = record m { pdl = record m.pdl { pdl_write = some (adr, word) } }

-- A write to A memory, which the macro dispatch watches.
unfoldable pub a_stored : {D : Type 0} → Micro D → ℕ → ℕ → Micro D
a_stored m adr word = record m {
  path = record m.path { amem = update m.path.amem adr word };
  macro_dispatch = a_written m.macro_dispatch adr word;
}

unfoldable pub m_stored : {D : Type 0} → Micro D → ℕ → ℕ → Micro D
unfolding a_stored
m_stored m adr word =
    let a = a_stored m adr word in
    record a {
      path = record a.path { mmem = update m.path.mmem adr word };
      macro_dispatch = m_written a.macro_dispatch adr word;
    }

module _ {D : Type 0} (dev : Devices D) where
  -- Destination 2: the CADR's resets the bus when the flag of bit 28 comes up.
  unfoldable pub interrupt_control_written : Micro D → ℕ → Micro D
  interrupt_control_written m word =
      let rises =
        not (wide m.geometry)
        && not (bit m.counter.interrupt_control 28)
        && bit word 28
        && m.geometry.unibus in
      let d = m.bus.devices in
      record m {
        counter = write_interrupt_control m.geometry m.counter word;
        bus = record m.bus { devices = if rises then dev.bus_reset m.clock.ns d else d };
      }

  unfoldable pub write_dest_code : Dest → Micro D → ℕ → Micro D
  unfolding interrupt_control_written start_read start_write
  write_dest_code nowhere m word = m
  write_dest_code to_lc m word = record m {
    counter = write_lc m.geometry m.counter (low_bits word 32);
  }
  write_dest_code to_interrupt_control m word = interrupt_control_written m word
  write_dest_code (to_macro_dispatch code) m word = record m {
    macro_write =
        if m.geometry.has_macro_dispatch then some (code, low_bits word 32) else m.macro_write;
  }
  write_dest_code pdl_at_pointer m word = pdl_written m (at_address m.pdl.pdl_pointer) word
  write_dest_code pdl_push m word =
      let pointer = pointer_up m.geometry.pdl_bits m.pdl.pdl_pointer in
      record m {
        pdl = record m.pdl { pdl_pointer = pointer; pdl_write = some (at_address pointer, word) };
      }
  write_dest_code pdl_at_index m word = pdl_written m at_index word
  write_dest_code to_pdl_index m word = record m {
    pdl = record m.pdl { pdl_index = pdl_masked m.geometry (low_bits word 16) };
  }
  write_dest_code to_pdl_pointer m word = record m {
    pdl = record m.pdl { pdl_pointer = pdl_masked m.geometry (low_bits word 16) };
  }
  write_dest_code to_spc m word = record m { stack = push_spc m.stack (low_bits word 32) }
  write_dest_code to_oa_low m word = record m {
    pipeline = record m.pipeline { oa_low = low_bits word 26; oal = true };
  }
  write_dest_code to_oa_high m word = record m {
    pipeline = record m.pipeline { oa_high = low_bits word 23; oah = true };
  }
  write_dest_code to_vma m word = with_vma m word
  write_dest_code vma_read m word = start_read dev (with_vma m word)
  write_dest_code vma_write m word = start_write dev (with_vma m word)
  write_dest_code vma_map m word = arm_map_write (with_vma m word)
  write_dest_code to_md m word = with_md m word
  write_dest_code md_read m word = start_read dev (with_md m word)
  write_dest_code md_write m word = start_write dev (with_md m word)
  write_dest_code md_map m word = arm_map_write (with_md m word)

  unfoldable pub write_functional : Micro D → ℕ → ℕ → Micro D
  unfolding write_dest_code dest_of
  write_functional m dest word = write_dest_code (dest_of dest) m word

  unfoldable pub write_dest : Micro D → ℕ → Micro D
  unfolding write_functional m_stored a_stored
  write_dest m dest =
      let word = m.path.out in
      either_of (bit dest 11) (λ n. a_stored n (low_bits dest 10) word)
        (λ n. m_stored (write_functional n dest word) (low_bits dest 5) word) m
