-- ===== src/Micro/Port/Cycles.antt =====
-- What becomes of a memory cycle that the engine starts.
use muir.Base.{ℕ, ◌+◌, ◌≡◌, refl, ap, ◌∙◌, arith, Bool, true, false, Option, some, none}
use muir.Base.{◌&&◌}
use muir.Machine.Geometry.{wide}
use muir.Micro.State.{Devices, Micro, translated}
use muir.Micro.Port.{
  displaced_by, cycled, start_cycle, start_read, read, answered, spied, read_started, with_vmaok,
}
use muir.Micro.Operands.{md_landed}

module _ {D : Type 0} (dev : Devices D) (m : Micro D) where
  -- A cycle that no other was started before.
  first :
      (s u b : Bool)
      → s ≡ false
      → cycled dev (s && u) b (displaced_by dev s u m) ≡ cycled dev false b m
  unfolding displaced_by
  first true u b e = absurd (ground arith)
  first false u b e = refl

  start_cycle-first :
      (b : Bool) → m.access.memstart ≡ false → start_cycle dev b m ≡ cycled dev false b m
  unfolding start_cycle
  start_cycle-first b h = first m.access.memstart m.geometry.unibus b h

  start_read-first :
      m.access.memstart ≡ false
      → start_read dev m
        ≡ read_started dev (translated m m.access.vma).access_permitted (cycled dev false false m)
  unfolding start_read cycled
  start_read-first h =
      ap (λ (c : Micro D). read_started dev (translated c c.access.vma).access_permitted c)
        (start_cycle-first false h)

  answered-granted :
      (c : Micro D) (p : Bool) (e : Option ℕ) (a : ℕ)
      → p ≡ true
      → e ≡ none
      → let r = dev.bus_read c.clock.ns c.bus a in
        answered dev p e c a ≡ (r.0, record (with_vmaok c true) { bus = r.1 })
  unfolding answered
  answered-granted c false e a hp he = absurd (ground arith)
  answered-granted c true none a hp he = refl
  answered-granted c true (some x) a hp he = absurd (ground arith)

  -- What a read that was allowed has waiting for `MD`.
  read_started-granted :
      (c : Micro D) (p : Bool)
      → p ≡ true
      → (translated c c.access.vma).access_permitted ≡ true
      → spied (wide c.geometry) (translated c c.access.vma).physical ≡ none
      → let s = read_started dev p c in
        (s.access.md ≡ c.access.md)
        × (s.access.new_md_delay ≡ 2)
        × (s.access.new_md ≡ (dev.bus_read c.clock.ns c.bus (translated c c.access.vma).physical).0)
        × (s.access.vmaok ≡ true)
  unfolding read_started read
  read_started-granted c false e h d = absurd (ground arith)
  read_started-granted c true e h d =
      let t = translated c c.access.vma in
      let e =
        answered-granted c t.access_permitted (spied (wide c.geometry) t.physical) t.physical h d in
      (
        ap (λ (r : ℕ × Micro D). r.1.access.md) e,
        refl,
        ap (λ (r : ℕ × Micro D). r.0) e,
        ap (λ (r : ℕ × Micro D). r.1.access.vmaok) e,
      )

  -- `MD` over two microcycles' heads, with a word waiting.
  md_landed-twice :
      (s : Micro D)
      → s.access.new_md_delay ≡ 2
      → ((md_landed s).access.md ≡ s.access.md)
        × ((md_landed (md_landed s)).access.md ≡ s.access.new_md)
  unfolding md_landed
  md_landed-twice s h = rw h (refl, refl)

  -- A read that the map allows, of an address that is no diagnostic register's, with no other
  -- start before it: `MD` keeps its word through the next microcycle, and in the one after has the
  -- bus's, read at the clock after the cycle.
  pub start_read-lands :
      m.access.memstart ≡ false
      → (translated m m.access.vma).access_permitted ≡ true
      → spied (wide m.geometry) (translated m m.access.vma).physical ≡ none
      → let once = md_landed (start_read dev m) in
        let at = m.clock.ns + m.clock.memory_cycle_ns in
        (once.access.md ≡ m.access.md)
        × ((md_landed once).access.md
            ≡ (dev.bus_read at m.bus (translated m m.access.vma).physical).0)
  unfolding cycled
  start_read-lands h p d =
      let c = cycled dev false false m in
      let g = read_started-granted c (translated m m.access.vma).access_permitted p p d in
      let l =
        md_landed-twice (read_started dev (translated m m.access.vma).access_permitted c) g.1 in
      rw (start_read-first h) (l.0 ∙ g.0, l.1 ∙ g.2)
