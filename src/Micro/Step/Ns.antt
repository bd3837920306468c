-- ===== src/Micro/Step/Ns.antt =====
-- The clock over a microcycle: every operation's time.
use muir.Base.{ℕ, ◌≤◌, ◌≡◌, refl, arith, Bool, true, false, Option, some, none, ◌&&◌}
use muir.Micro.Counter.{step_lc}
use muir.Machine.Geometry.{wide}
use muir.Micro.State.{translated, Devices, Micro}
use muir.Micro.Port.{
  write_goes_out, displaced_by, cycled, answered, spied, read_started, start_cycle, start_write,
  start_read, read, fetched, advance_lc,
}
use muir.Micro.Port.{clock_map_write}
use muir.Micro.Edge.{started_write, due_write, next_clocked, fetch_and_clock, operand_landed}

abbrev pub ns : {D : Type 0} → Micro D → ℕ
ns m = m.clock.ns

module _ {D : Type 0} (dev : Devices D) where
  pub ns-write_goes_out : (m : Micro D) → ns (write_goes_out dev m) ≡ ns m
  unfolding write_goes_out
  ns-write_goes_out m = ground arith

  ns-displaced : (a b : Bool) (m : Micro D) → ns (displaced_by dev a b m) ≡ ns m
  unfolding displaced_by
  ns-displaced false b m = refl
  ns-displaced true false m = ns-write_goes_out m
  ns-displaced true true m = refl

  ns-cycled : (lost b : Bool) (m : Micro D) → ns m ≤ ns (cycled dev lost b m)
  unfolding cycled
  ns-cycled true b m = omega arith
  ns-cycled false b m = omega arith

  ns-start_cycle : (b : Bool) (m : Micro D) → ns m ≤ ns (start_cycle dev b m)
  unfolding start_cycle
  ns-start_cycle b m =
      let d = displaced_by dev m.access.memstart m.geometry.unibus m in
      omega (
        arith,
        ns-displaced m.access.memstart m.geometry.unibus m,
        ns-cycled (m.access.memstart && m.geometry.unibus) b d,
      )

  ns-answered : (p : Bool) (e : Option ℕ) (m : Micro D) (a : ℕ) → ns (answered dev p e m a).1 ≡ ns m
  unfolding answered
  ns-answered false e m a = refl
  ns-answered true none m a = refl
  ns-answered true (some e) m a = refl

  ns-read_started : (b : Bool) (m : Micro D) → ns (read_started dev b m) ≡ ns m
  unfolding read_started read
  ns-read_started true m =
      let t = translated m m.access.vma in
      ns-answered t.access_permitted (spied (wide m.geometry) t.physical) m t.physical
  ns-read_started false m = refl

  pub ns-start_write : (m : Micro D) → ns m ≤ ns (start_write dev m)
  unfolding start_write
  ns-start_write m = ns-start_cycle true m

  pub ns-start_read : (m : Micro D) → ns m ≤ ns (start_read dev m)
  unfolding start_read
  ns-start_read m =
      let c = start_cycle dev false m in
      omega (
        arith,
        ns-read_started (translated c c.access.vma).access_permitted c,
        ns-start_cycle false m,
      )

  ns-fetched : (m : Micro D) (from : Option ℕ) → ns m ≤ ns (fetched dev m from)
  unfolding fetched
  ns-fetched m none = omega arith
  ns-fetched m (some a) = ns-start_read (record m { access = record m.access { vma = a } })

  pub ns-advance_lc : (m : Micro D) → ns m ≤ ns (advance_lc dev m)
  unfolding advance_lc
  ns-advance_lc m =
      let s = step_lc m.geometry m.counter in ns-fetched (record m { counter = s.0 }) s.1

  ns-started_write : (m : Micro D) → ns (started_write dev m) ≡ ns m
  unfolding started_write
  ns-started_write m = grind (arith, ns-write_goes_out)

  ns-due_write : (m : Micro D) → ns (due_write dev m) ≡ ns m
  unfolding due_write
  ns-due_write m = grind (arith, ns-write_goes_out)

  ns-next_clocked : (m : Micro D) → ns m ≤ ns (next_clocked dev m)
  unfolding next_clocked
  ns-next_clocked m = ground (arith, ns-advance_lc m)

  pub ns-fetch_and_clock : (m : Micro D) → ns m ≤ ns (fetch_and_clock dev m)
  unfolding fetch_and_clock operand_landed
  ns-fetch_and_clock m =
      let o = operand_landed m in
      let s = started_write dev o in
      omega (
        arith,
        ns-due_write (clock_map_write (next_clocked dev s)),
        ns-next_clocked s,
        ns-started_write o,
      )
