-- ===== src/Micro/Step/Timing.antt =====
-- How long a microcycle of a synchronous machine is.
use muir.Base.{
  ℕ, zero, suc, ◌+◌, ◌*◌, ◌<◌, ◌≡◌, refl, ap, ◌∙◌, arith, Bool, true, false, not, bit, ◌&&◌, ◌||◌,
  if◌then◌else◌,
}
use muir.Micro.State.{Devices, Micro, when}
use muir.Micro.Port.{write_goes_out}
use muir.Micro.Edge.{
  speedclk, ticked, microcycle_ns, mclk_edge, requests_taken, reset_all, trapped, idle_cycle,
  advance_pipeline,
}
use muir.Micro.Step.{idle_cycles, edge, held, nopa, edge_begun, div_cycles}

-- The two readings of the clock that a synchronous machine's cycles go by.
abbrev pub reading : {D : Type 0} → Micro D → ℕ × ℕ
reading m = (m.clock.ns, m.clock.sync_cycle_ns)

module _ {D : Type 0} (dev : Devices D) (s : ℕ) (hs : 0 < s) where
  cycles_sum : (h : Bool) (n : ℕ) → (if h then n + 9 * s else n) + s ≡ n + (if h then 10 else 1) * s
  cycles_sum true n = omega arith
  cycles_sum false n = omega arith

  reading-when :
      (b : Bool) (f : Micro D → Micro D) (m : Micro D)
      → reading (f m) ≡ reading m
      → reading (when b f m) ≡ reading m
  reading-when true f m e = e
  reading-when false f m e = refl

  reading-mclk_edge : (m : Micro D) → reading (mclk_edge dev m) ≡ reading m
  unfolding mclk_edge requests_taken reset_all trapped
  reading-mclk_edge m =
      let taken = requests_taken dev m in
      let r = m.bus.console.prog_reset || m.bus.console.prog_boot in
      reading-when m.bus.console.prog_boot trapped (when r reset_all taken) refl
      ∙ reading-when r reset_all taken refl

  reading-speedclk : (m : Micro D) → reading (speedclk m) ≡ reading m
  unfolding speedclk
  reading-speedclk m = ground arith

  reading-ticked :
      (ilong : Bool) (n : ℕ) (m : Micro D)
      → reading m ≡ (n, s)
      → reading (ticked ilong m) ≡ (n + s, s)
  unfolding ticked microcycle_ns
  reading-ticked ilong n m e = ground arith

  reading-idle_cycle :
      (ilong : Bool) (n : ℕ) (m : Micro D)
      → reading m ≡ (n, s)
      → reading (idle_cycle dev ilong m) ≡ (n + s, s)
  unfolding idle_cycle
  reading-idle_cycle ilong n m e =
      reading-mclk_edge (ticked ilong (speedclk m))
      ∙ reading-ticked ilong n (speedclk m) (reading-speedclk m ∙ e)

  reading-idle_cycles :
      (ilong : Bool) (k n : ℕ) (m : Micro D)
      → reading m ≡ (n, s)
      → reading (idle_cycles dev ilong k m) ≡ (n + k * s, s)
  unfolding idle_cycles
  reading-idle_cycles ilong zero n m e = ground arith
  reading-idle_cycles ilong (suc k) n m e = ground (
    arith,
    reading-idle_cycles ilong k (n + s) (idle_cycle dev ilong m) (reading-idle_cycle ilong n m e),
  )

  reading-write_goes_out : (m : Micro D) → reading (write_goes_out dev m) ≡ reading m
  unfolding write_goes_out
  reading-write_goes_out m = ground arith

  -- A wait of the divider, at the end of which the microcycle's own cycle follows.
  reading-held :
      (held ilong : Bool) (n : ℕ) (m : Micro D)
      → reading m ≡ (n, s)
      → reading (when held (λ h. idle_cycles dev ilong div_cycles (write_goes_out dev h)) m)
        ≡ ((if held then n + 9 * s else n), s)
  reading-held true ilong n m e =
      reading-idle_cycles ilong div_cycles n (write_goes_out dev m) (reading-write_goes_out m ∙ e)
  reading-held false ilong n m e = e

  -- On a synchronous machine the microcycle's edge is one cycle after the last, and ten where the
  -- divider holds it.
  pub edge-ns :
      (m : Micro D)
      → m.clock.sync_cycle_ns ≡ s
      → (edge dev m).clock.ns ≡ m.clock.ns + (if held m then 10 else 1) * s
  unfolding edge advance_pipeline
  edge-ns m e =
      let n = m.clock.ns in
      let ilong = not (nopa (speedclk m)) && bit (speedclk m).pipeline.p1.raw 45 in
      let waited =
        when (held m) (λ h. idle_cycles dev ilong div_cycles (write_goes_out dev h))
          (edge_begun m) in
      let begun = reading-speedclk m ∙ ap (λ (t : ℕ). (n, t)) e in
      let w = reading-held (held m) ilong n (edge_begun m) begun in
      let t = reading-ticked ilong (if held m then n + 9 * s else n) waited w in
      ap (λ (r : ℕ × ℕ). r.0) (reading-mclk_edge (ticked ilong waited) ∙ t) ∙ cycles_sum (held m) n
