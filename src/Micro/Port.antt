-- ===== src/Micro/Port.antt =====
-- src/micro.rs: the memory cycles that the engine starts, and the writes of the map.
pub mod Cycles
mod Examples
use muir.Base.{ℕ, ◌+◌, ◌-◌, ◌*◌, ◌/◌, ◌%◌, ◌^◌, bit_or, Bool, true, false, not, ◌&&◌, ◌||◌, ◌==◌}
use muir.Base.{if◌then◌else◌, Option, some, none, bit, ◌>>>◌, ◌<<<◌, low_bits, ltb}
use muir.Machine.Map.{Translation, write_map}
use muir.Machine.Geometry.{wide}
use muir.Machine.Console.{register}
use muir.Processor.Isa.{Insn, insn, op, Op, alu_class, jump_class, dispatch_class, byte_class}
use muir.Micro.Counter.{needfetch, step_lc}
use muir.Micro.Spy.{spy_read}
use muir.Micro.State.{Devices, Micro, WriteOut, started, next, due, translated}

-- `busint::unibus_address`
unfoldable pub unibus_address : ℕ → Option ℕ
unibus_address phys =
    let page = low_bits (phys >>> 8) 14 in
    if ltb page 0o37000
    then none
    else some (bit_or ((page - 0o37000) <<< 8) (low_bits phys 8) <<< 1)

-- The diagnostic register at a physical address.
unfoldable pub diagnostic : ℕ → Option ℕ
unfolding unibus_address
diagnostic phys = elim (unibus_address phys) [ none ↦ none | some u ↦ register u ]

-- `code & !0o4` of a code with `0o20`, whose bit 2 is not decoded.
unfoldable pub dest_code : ℕ → ℕ
dest_code code = if bit code 4 then code - low_bits (code >>> 2) 1 * 4 else code

-- The instruction in the pipeline, with the OA registers ORed in.
unfoldable pub oa_modified : {D : Type 0} → Micro D → ℕ
oa_modified m =
    let p = m.pipeline in
    let word = if m.bus.console.clock_control.idebug then m.bus.console.debug_ir else p.p1.raw in
    let low = if p.oal then bit_or word p.oa_low else word in
    if p.oah then bit_or low (p.oa_high <<< 26) else low

-- The functional destination that an instruction has, 0 if none.
unfoldable pub next_dest : ℕ → Bool → ℕ
unfolding dest_code
next_dest word nopped =
    let written =
      if not nopped && not (bit word 25) then dest_code (low_bits (word >>> 19) 5) else 0 in
    elim (op (insn word)) [
      | alu_class ↦ written
      | byte_class ↦ written
      | jump_class ↦ 0
      | dispatch_class ↦ 0
    ]

abbrev pub is_dispatch : Op → Bool
is_dispatch dispatch_class = true
is_dispatch alu_class = false
is_dispatch jump_class = false
is_dispatch byte_class = false

unfoldable pub next_microcycle_holds_the_write : {D : Type 0} → Micro D → Bool
unfolding oa_modified next_dest
next_microcycle_holds_the_write m =
    let nopped = m.pipeline.inhibit || m.bus.console.clock_control.nop11 in
    let word = oa_modified m in
    let dest = next_dest word nopped in
    let loads_md = (m.access.new_md_delay == 1) || (not (ltb dest 0o30) && not (ltb 0o33 dest)) in
    let dispatches =
      not nopped
      && is_dispatch (op (insn word))
      && bit word 24
      && not (low_bits (word >>> 10) 2 == 2) in
    let fetches = needfetch m.counter && (m.counter.next_instr || dispatches) in
    let starts = fetches || (dest == 0o21) || (dest == 0o22) || (dest == 0o31) || (dest == 0o32) in
    if m.geometry.unibus then loads_md || starts else loads_md && not starts

abbrev pub arm_map_write : {D : Type 0} → Micro D → Micro D
arm_map_write m = record m {
  access = record m.access { map_write = some (m.access.vma, m.access.md) };
}

abbrev pub clock_map_write : {D : Type 0} → Micro D → Micro D
clock_map_write m = record m {
  access = record m.access { map_write_d = m.access.map_write; map_write = none };
}

unfoldable pub land_map_write : {D : Type 0} → Micro D → Micro D
land_map_write m = elim m.access.map_write_d [
  | none ↦ m
  | some (vma, md) ↦ record m {
    access = record m.access {
      maps = write_map m.geometry m.access.maps vma md;
      map_write_d = none;
    };
  }
]

-- `Micro::map_address`
abbrev pub map_address : {D : Type 0} → Micro D → ℕ
map_address m = low_bits (if m.access.memstart then m.access.vma else m.access.md) 32

abbrev pub with_vmaok : {D : Type 0} → Micro D → Bool → Micro D
with_vmaok m ok = record m { access = record m.access { vmaok = ok } }

-- The register that a read of an address shows in place of the bus: revision 13 has none.
unfoldable pub spied : Bool → ℕ → Option ℕ
unfolding diagnostic
spied true phys = none
spied false phys = diagnostic phys

module _ {D : Type 0} (dev : Devices D) where
  unfoldable pub write_goes_out : Micro D → Micro D
  write_goes_out m = elim m.access.write_out [
    | none ↦ m
    | some (physical, when) ↦ record m {
      access = record m.access { write_out = none };
      bus = dev.bus_write m.clock.ns m.bus physical m.access.md;
    }
  ]

  -- A read's answer: refused by the map, from the bus, or from a diagnostic register.
  unfoldable pub answered : Bool → Option ℕ → Micro D → ℕ → ℕ × Micro D
  unfolding spy_read
  answered false eadr m physical = (0, with_vmaok m false)
  answered true none m physical =
      let (word, bus) = dev.bus_read m.clock.ns m.bus physical in
      (word, record (with_vmaok m true) { bus = bus })
  answered true (some eadr) m physical = (spy_read (with_vmaok m true) eadr, with_vmaok m true)

  unfoldable pub read : Micro D → ℕ → ℕ × Micro D
  unfolding spied answered
  read m vma =
      let t = translated m vma in
      answered t.access_permitted (spied (wide m.geometry) t.physical) m t.physical

  -- On the CADR the cycle started in the microcycle before is lost; on the others its write
  -- goes out first.
  unfoldable pub displaced_by : Bool → Bool → Micro D → Micro D
  unfolding write_goes_out
  displaced_by false unibus m = m
  displaced_by true false m = write_goes_out m
  displaced_by true true m = record m {
    access = record m.access { write_out = none; new_md_delay = 0 };
  }

  abbrev pub displaced : Micro D → Micro D
  displaced m = displaced_by m.access.memstart m.geometry.unibus m

  -- The cycle's bookkeeping; a cycle that another was lost to is not charged again.
  unfoldable pub cycled : Bool → Bool → Micro D → Micro D
  cycled lost write d = record d {
    access = record d.access {
      memop = true;
      lvmo = (translated d d.access.vma).l2_data;
      wrcyc = write;
    };
    clock = if lost then d.clock else record d.clock {
      ns = d.clock.ns + d.clock.memory_cycle_ns;
      memory_cycles = d.clock.memory_cycles + 1;
    };
  }

  unfoldable pub start_cycle : Bool → Micro D → Micro D
  unfolding displaced_by cycled
  start_cycle write m = cycled (m.access.memstart && m.geometry.unibus) write (displaced m)

  unfoldable pub start_write : Micro D → Micro D
  unfolding start_cycle
  start_write m =
      let c = start_cycle true m in
      let t = translated c c.access.vma in
      let ok = t.access_permitted && t.write_permitted in
      let when = if m.access.memstart && m.geometry.unibus then due else started in
      record c {
        access = record c.access {
          vmaok = ok;
          write_out = if ok then some (t.physical, when) else c.access.write_out;
        };
      }

  unfoldable pub read_started : Bool → Micro D → Micro D
  unfolding read
  read_started true c =
      let (word, r) = read c c.access.vma in
      record r { access = record r.access { new_md = word; new_md_delay = 2 } }
  read_started false c = with_vmaok c false

  unfoldable pub start_read : Micro D → Micro D
  unfolding start_cycle read_started
  start_read m =
      let c = start_cycle false m in read_started (translated c c.access.vma).access_permitted c

  -- The read that a step of the location counter starts.
  unfoldable pub fetched : Micro D → Option ℕ → Micro D
  unfolding start_read
  fetched m none = m
  fetched m (some fetch_from) =
      start_read (record m { access = record m.access { vma = fetch_from } })

  -- `Micro::step_lc`
  unfoldable pub advance_lc : Micro D → Micro D
  unfolding step_lc fetched
  advance_lc m =
      let (counter, from) = step_lc m.geometry m.counter in
      fetched (record m { counter = counter }) from
