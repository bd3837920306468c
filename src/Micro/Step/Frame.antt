-- ===== src/Micro/Step/Frame.antt =====
-- What the memory cycles of a microcycle leave alone.
use muir.Base.{ℕ, ◌≡◌, refl, ◌∙◌, arith, Bool, true, false, Option, some, none}
use muir.Machine.Geometry.{Geometry}
use muir.Micro.Stack.{Stack}
use muir.Micro.Pdl.{Pdl}
use muir.Micro.Counter.{step_lc}
use muir.Machine.Geometry.{wide}
use muir.Micro.State.{translated, Devices, Micro, DataPath, Pipeline}
use muir.Micro.Port.{
  write_goes_out, displaced_by, answered, spied, read_started, start_cycle, start_write, start_read,
  read, fetched,
}
use muir.Micro.Port.{advance_lc, land_map_write, clock_map_write}
use muir.Micro.Edge.{started_write, due_write, next_clocked, fetch_and_clock, operand_landed}
use muir.Micro.Operands.{map_landed, md_landed}

-- The processor without its memory port, its counter, its clock and the bus.
pub record Core : Type 0 where
  pub geometry : Geometry
  pub path : DataPath
  pub stack : Stack
  pub pdl : Pdl
  pub pipeline : Pipeline

abbrev pub core : {D : Type 0} → Micro D → Core
core m = record {
  geometry = m.geometry;
  path = m.path;
  stack = m.stack;
  pdl = m.pdl;
  pipeline = m.pipeline;
}

module _ {D : Type 0} (dev : Devices D) where
  pub core-write_goes_out : (m : Micro D) → core (write_goes_out dev m) ≡ core m
  unfolding write_goes_out
  core-write_goes_out m = ground arith

  core-displaced : (a b : Bool) (m : Micro D) → core (displaced_by dev a b m) ≡ core m
  unfolding displaced_by
  core-displaced false b m = refl
  core-displaced true false m = core-write_goes_out m
  core-displaced true true m = refl

  core-start_cycle : (b : Bool) (m : Micro D) → core (start_cycle dev b m) ≡ core m
  unfolding start_cycle
  core-start_cycle b m = core-displaced m.access.memstart m.geometry.unibus m

  pub core-start_write : (m : Micro D) → core (start_write dev m) ≡ core m
  unfolding start_write
  core-start_write m = core-start_cycle true m

  core-answered :
      (p : Bool) (e : Option ℕ) (m : Micro D) (a : ℕ) → core (answered dev p e m a).1 ≡ core m
  unfolding answered
  core-answered false e m a = refl
  core-answered true none m a = refl
  core-answered true (some e) m a = refl

  core-read_started : (b : Bool) (m : Micro D) → core (read_started dev b m) ≡ core m
  unfolding read_started read
  core-read_started true m =
      let t = translated m m.access.vma in
      core-answered t.access_permitted (spied (wide m.geometry) t.physical) m t.physical
  core-read_started false m = refl

  pub core-start_read : (m : Micro D) → core (start_read dev m) ≡ core m
  unfolding start_read
  core-start_read m =
      let c = start_cycle dev false m in
      core-read_started (translated c c.access.vma).access_permitted c ∙ core-start_cycle false m

  core-fetched : (m : Micro D) (from : Option ℕ) → core (fetched dev m from) ≡ core m
  unfolding fetched
  core-fetched m none = refl
  core-fetched m (some a) = core-start_read (record m { access = record m.access { vma = a } })

  pub core-advance_lc : (m : Micro D) → core (advance_lc dev m) ≡ core m
  unfolding advance_lc
  core-advance_lc m =
      let s = step_lc m.geometry m.counter in core-fetched (record m { counter = s.0 }) s.1

  core-started_write : (m : Micro D) → core (started_write dev m) ≡ core m
  unfolding started_write
  core-started_write m = grind (arith, core-write_goes_out)

  core-due_write : (m : Micro D) → core (due_write dev m) ≡ core m
  unfolding due_write
  core-due_write m = grind (arith, core-write_goes_out)

  core-next_clocked : (m : Micro D) → core (next_clocked dev m) ≡ core m
  unfolding next_clocked
  core-next_clocked m = ground (arith, core-advance_lc m)

  pub core-fetch_and_clock : (m : Micro D) → core (fetch_and_clock dev m) ≡ core (operand_landed m)
  unfolding fetch_and_clock
  core-fetch_and_clock m =
      let o = operand_landed m in
      let s = started_write dev o in
      core-due_write (clock_map_write (next_clocked dev s))
      ∙ core-next_clocked s
      ∙ core-started_write o

pub core-map_landed : {D : Type 0} (m : Micro D) → core (map_landed m) ≡ core m
unfolding map_landed land_map_write
core-map_landed m = ground arith

pub core-md_landed : {D : Type 0} (m : Micro D) → core (md_landed m) ≡ core m
unfolding md_landed
core-md_landed m = refl
