-- ===== src/Micro/Operands.antt =====
-- src/micro.rs, `step`: what lands at the head of a microcycle, and the reading of its sources.
use muir.Base.{ℕ, ◌-◌, bit_or, Bool, true, false}
use muir.Base.{◌==◌, if◌then◌else◌, Option, some, none, ◌<<<◌, low_bits}
use muir.Machine.Map.{Translation}
use muir.Processor.Isa.{insn, m_src_functional, popj}
use muir.Micro.Stack.{land_spc, begin}
use muir.Micro.Pdl.{land_pdl}
use muir.Micro.State.{Micro, Pipeline, ir, translated}
use muir.Micro.Port.{land_map_write, map_address}
use muir.Micro.Sources.{read_functional}

-- A map write's word, kept where a reader of the map's memory still sees the old one.
abbrev pub kept_when : Bool → Option (ℕ × ℕ) → Translation → Option Translation
kept_when keeps none t = none
kept_when keeps (some w) t = if keeps then some t else none

-- The map's write lands, its old word kept where a reader of the memory sees that.
unfoldable pub map_landed : {D : Type 0} → Micro D → Micro D
unfolding land_map_write
map_landed m =
    let a = m.access in
    let begun = record m { access = record a { memstart = a.memop; memop = false } } in
    let keeps = m.geometry.old_word_while_written in
    let before = kept_when keeps a.map_write_d (translated begun (map_address begun)) in
    land_map_write (record begun { access = record begun.access { map_seen = before } })

-- A read's word reaches `MD`.
unfoldable pub md_landed : {D : Type 0} → Micro D → Micro D
md_landed m =
    let a = m.access in
    record m {
      access = record a {
        new_md_delay = a.new_md_delay - 1;
        md = if a.new_md_delay == 1 then a.new_md else a.md;
      };
    }

unfoldable pub writes_landed : {D : Type 0} → Micro D → Micro D
unfolding land_spc land_pdl
writes_landed m = record m { stack = land_spc m.stack; pdl = land_pdl m.pdl }

-- `IR` with the OA registers ORed in.
unfoldable pub modified : Pipeline → Pipeline
modified p =
    let low = if p.oal then insn (bit_or p.p0.raw p.oa_low) else p.p0 in
    let high = if p.oah then insn (bit_or low.raw (p.oa_high <<< 26)) else low in
    record p { p0 = high; oal = false; oah = false; executed = some p.p0_pc; popj = popj high }

-- The M side: a functional source, or M memory.
unfoldable pub m_side : {D : Type 0} → Bool → ℕ → Micro D → ℕ × Micro D
unfolding read_functional
m_side true maddr m = read_functional maddr m
m_side false maddr m = (m.path.mmem maddr, m)

-- The sources read, and the writes of the microcycle before landed after them.
unfoldable pub operands_read : {D : Type 0} → Micro D → Micro D
unfolding modified m_side writes_landed
operands_read m =
    let p = modified m.pipeline in
    let begun = record m { pipeline = p; stack = begin m.stack; macro_write = none } in
    let aaddr = ir begun 32 10 in
    let maddr = ir begun 26 5 in
    let (mdata, read) = m_side (m_src_functional p.p0) maddr begun in
    let adata = m.path.amem aaddr in
    writes_landed (record read {
      path = record read.path {
        aaddr = aaddr;
        maddr = maddr;
        mdata = mdata;
        adata = adata;
        iwr = bit_or (low_bits adata 16 <<< 32) (low_bits mdata 32);
      };
    })
