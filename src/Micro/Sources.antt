-- ===== src/Micro/Sources.antt =====
-- src/micro.rs, `read_functional`: the functional sources of the M side.
use muir.Base.{ℕ, bit_or, Bool, true, not, ◌&&◌, if◌then◌else◌, bit}
use muir.Base.{some, none, [], ◌∷◌, get_or, of_bool, ◌<<<◌, low_bits}
use muir.Machine.Geometry.{Geometry, wide, word_mask, pdl_masked}
use muir.Machine.Map.{Translation, l1_masked}
use muir.Machine.Timer.{microseconds}
use muir.Micro.Stack.{Stack, down}
use muir.Micro.Pdl.{word_at, pointer_down}
use muir.Micro.Counter.{read_lc}
use muir.Micro.State.{Micro, Access, translated}
use muir.Micro.Port.{map_address}

pub data Source : Type 0 where
  dispatch_source spc_source pointer_source index_source pdl_pop pdl_source opc_source : Source
  q_source vma_source map_source md_source lc_source spc_pop timer_source id_source : Source
  open_source : Source

-- The low four bits of the code.
abbrev pub source_of : ℕ → Source
source_of code =
    get_or
      (dispatch_source ∷ spc_source ∷ pointer_source ∷ index_source ∷ pdl_pop ∷ pdl_source
        ∷ opc_source ∷ q_source ∷ vma_source ∷ map_source ∷ md_source ∷ lc_source ∷ spc_pop
        ∷ timer_source ∷ id_source ∷ [])
      (low_bits code 4) open_source

unfoldable pub spc_word : Stack → ℕ
spc_word s = bit_or (s.spcptr <<< 24) (low_bits (s.spc s.spcptr) 19)

-- The map's word as it is read, with the two fault bits.
unfoldable pub map_word : Geometry → Access → Translation → ℕ
map_word g a t =
    let w = wide g in
    let pfr = bit a.lvmo (if w then 27 else 23) in
    let pfw = not (not (bit a.lvmo (if w then 26 else 22)) && a.wrcyc) in
    let faults = bit_or (of_bool (not pfw) <<< 31) (of_bool (not pfr) <<< 30) in
    if w
    then bit_or (bit_or (low_bits t.l1_data 7 <<< 32) faults) (low_bits t.l2_data 28)
    else bit_or (bit_or faults (l1_masked g t.l1_data <<< 24)) (low_bits t.l2_data 24)

-- What the map answers with: its word before the write that lands, where that was kept.
unfoldable pub seen : {D : Type 0} → Micro D → Translation
seen m = elim m.access.map_seen [ none ↦ translated m (map_address m) | some t ↦ t ]

-- Bit 4 of the code picks the pointer for the PDL buffer's address.
unfoldable pub read_source : {D : Type 0} → Source → Bool → Micro D → ℕ × Micro D
unfolding spc_word map_word seen
read_source dispatch_source by_pointer m = (m.path.dispatch_constant, m)
read_source spc_source by_pointer m = (spc_word m.stack, m)
read_source pointer_source by_pointer m = (pdl_masked m.geometry m.pdl.pdl_pointer, m)
read_source index_source by_pointer m = (pdl_masked m.geometry m.pdl.pdl_index, m)
read_source pdl_pop by_pointer m = (
  word_at m.pdl by_pointer,
  record m {
    pdl = record m.pdl { pdl_pointer = pointer_down m.geometry.pdl_bits m.pdl.pdl_pointer };
  },
)
read_source pdl_source by_pointer m = (word_at m.pdl by_pointer, m)
read_source opc_source by_pointer m = (get_or m.pipeline.opc 7 0, m)
read_source q_source by_pointer m = (m.path.q, m)
read_source vma_source by_pointer m = (m.access.vma, m)
read_source map_source by_pointer m = (map_word m.geometry m.access (seen m), m)
read_source md_source by_pointer m = (m.access.md, m)
read_source lc_source by_pointer m = (read_lc m.geometry m.counter, m)
read_source spc_pop by_pointer m = (
  spc_word m.stack,
  record m { stack = record m.stack { spcptr = down m.stack.spcptr; spc_popped = true } },
)
read_source timer_source by_pointer m =
    (if m.geometry.has_tick then microseconds m.clock.ns else word_mask m.geometry, m)
read_source id_source by_pointer m =
    (elim m.geometry.machine_id [ none ↦ word_mask m.geometry | some id ↦ id ], m)
read_source open_source by_pointer m = (word_mask m.geometry, m)

unfoldable pub read_functional : {D : Type 0} → ℕ → Micro D → ℕ × Micro D
unfolding read_source
read_functional source m = read_source (source_of source) (bit source 4) m
