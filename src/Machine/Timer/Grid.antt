-- ===== src/Machine/Timer/Grid.antt =====
-- When an interval timer's flag rises.
use muir.Base.{ℕ, ◌+◌, ◌-◌, ◌*◌, ◌/◌, ◌^◌, ◌≤◌, ◌<◌, List, [], ◌∷◌, true, false, ◌≡◌}
use muir.Base.{inl, inr, ap, ◌∙◌, arith, bit, leb, ◌&&◌, Bool-cases}
use muir.Machine.Timer.{IntervalTimer, flag, cleared, after, never, write_control}
use native.Mathlib.Nat.{div-add-mod, mod-lt, mod-eq_of_lt}

-- The next boundary after `now` of the grid of `d`.
next_rise :
    (d now p : ℕ)
    → 1 ≤ p
    → d ≤ now
    → let d' = d + (now - d) / p * p + p in (now < d') × (d' ≤ now + p)
next_rise d now p hp h = (
  omega (arith, div-add-mod (now - d) p, mod-lt (now - d) hp),
  omega (arith, div-add-mod (now - d) p, mod-lt (now - d) hp),
)

cleared-eq :
    (t : IntervalTimer) (now : ℕ)
    → t.one_shot ≡ false
    → 1 ≤ t.period_us
    → t.deadline_ns ≤ now
    → now + t.period_us * 1000 < 2 ^ 64
    → let p = t.period_us * 1000 in
      cleared t now ≡ t.deadline_ns + (now - t.deadline_ns) / p * p + p
unfolding cleared
cleared-eq t now periodic pos up room =
    let p = t.period_us * 1000 in
    ground (
      arith,
      next_rise t.deadline_ns now p (omega arith) up,
      mod-eq_of_lt {n = t.deadline_ns + (now - t.deadline_ns) / p * p} {m = 2 ^ 64},
      mod-eq_of_lt {n = t.deadline_ns + (now - t.deadline_ns) / p * p + p} {m = 2 ^ 64},
    )

-- What a clear, with the timer left on, does to the deadline.
write_control-clears :
    (t : IntervalTimer) (now v : ℕ)
    → t.on ≡ true
    → t.deadline_ns ≤ now
    → bit v 0 ≡ true
    → bit v 1 ≡ true
    → (write_control t now v).deadline_ns ≡ cleared t now
unfolding write_control flag
write_control-clears t now v on up hon hclear = ground arith

-- A clear of a periodic timer's raised flag, while it stays on, takes the flag down and puts the
-- next rise on the same grid: a whole number of periods after the last, later than `now` and no
-- more than a period after it.
pub clear-periodic :
    (t : IntervalTimer) (now v : ℕ)
    → t.on ≡ true
    → t.one_shot ≡ false
    → 1 ≤ t.period_us
    → flag t now ≡ true
    → now + t.period_us * 1000 < 2 ^ 64
    → bit v 0 ≡ true
    → bit v 1 ≡ true
    → let t' = write_control t now v in
      let p = t.period_us * 1000 in
      (flag t' now ≡ false)
      × (t'.deadline_ns ≤ now + p)
      × (t'.deadline_ns ≡ t.deadline_ns + ((now - t.deadline_ns) / p + 1) * p)
unfolding flag
clear-periodic t now v on periodic pos up room hon hclear =
    let p = t.period_us * 1000 in
    let risen : t.deadline_ns ≤ now = ground arith in
    let moved = write_control-clears t now v on risen hon hclear in
    let put = cleared-eq t now periodic pos risen room in
    let bounds = next_rise t.deadline_ns now p (omega arith) risen in
    (
      ground (arith, moved, put, bounds),
      omega (arith, moved, put, bounds),
      omega (arith, moved, put),
    )

-- A one-shot timer's clear leaves its flag down until the end of the clock.
pub clear-one_shot :
    (t : IntervalTimer) (now v later : ℕ)
    → t.on ≡ true
    → t.one_shot ≡ true
    → flag t now ≡ true
    → bit v 0 ≡ true
    → bit v 1 ≡ true
    → later < never
    → flag (write_control t now v) later ≡ false
unfolding flag write_control cleared
clear-one_shot t now v later on shot up hon hclear h = ground arith

-- A periodic timer on the grid of a start at `s` with period `p`.
pub record OnGrid (s p : ℕ) (t : IntervalTimer) : Type 0 where
  pub is_on : t.on ≡ true
  pub periodic : t.one_shot ≡ false
  pub period : t.period_us * 1000 ≡ p
  pub passed : ℕ
  pub on_grid : t.deadline_ns ≡ s + (passed + 1) * p

-- Control writes, each at its time.
abbrev pub writes : IntervalTimer → List (ℕ × ℕ) → IntervalTimer
writes t [] = t
writes t ((now, v) ∷ rest) = writes (write_control t now v) rest

-- Every write leaves the timer on and comes before the clock could wrap.
abbrev pub StayOn : ℕ → List (ℕ × ℕ) → Type 0
StayOn p [] = Unit {0}
StayOn p ((now, v) ∷ rest) = (bit v 0 ≡ true) × (now + p < 2 ^ 64) × StayOn p rest

kept :
    (t : IntervalTimer) (now v : ℕ)
    → t.on ≡ true
    → bit v 0 ≡ true
    → let t' = write_control t now v in
      (t'.on ≡ true) × (t'.one_shot ≡ t.one_shot) × (t'.period_us ≡ t.period_us)
unfolding write_control
kept t now v on hon = ground arith

write_control-same :
    (t : IntervalTimer) (now v : ℕ)
    → t.on ≡ true
    → bit v 0 ≡ true
    → (bit v 1 && leb t.deadline_ns now) ≡ false
    → (write_control t now v).deadline_ns ≡ t.deadline_ns
unfolding write_control flag
write_control-same t now v on hon h = ground arith

clear_moves :
    (s p : ℕ) (t : IntervalTimer) (now v : ℕ) (g : OnGrid s p t)
    → 1 ≤ p
    → bit v 0 ≡ true
    → now + p < 2 ^ 64
    → (bit v 1 && leb t.deadline_ns now) ≡ true
    → (write_control t now v).deadline_ns ≡ s + (g.passed + (now - t.deadline_ns) / p + 1 + 1) * p
clear_moves s p t now v g hp hon room c =
    let risen : t.deadline_ns ≤ now = ground arith in
    let wants : bit v 1 ≡ true = ground arith in
    let moved = write_control-clears t now v g.is_on risen hon wants in
    let put =
      cleared-eq t now g.periodic (omega (arith, g.period)) risen (omega (arith, g.period, room)) in
    omega (arith, moved, rw g.period at put, g.on_grid)

module _ (s p : ℕ) (hp : 1 ≤ p) where
  write_control-OnGrid :
      (t : IntervalTimer) (now v : ℕ)
      → OnGrid s p t
      → bit v 0 ≡ true
      → now + p < 2 ^ 64
      → OnGrid s p (write_control t now v)
  write_control-OnGrid t now v g hon room = elim (Bool-cases (bit v 1 && leb t.deadline_ns now)) [
    | inl c ↦ record {
      is_on = (kept t now v g.is_on hon).0;
      periodic = (kept t now v g.is_on hon).1 ∙ g.periodic;
      period = ap (λ x. x * 1000) (kept t now v g.is_on hon).2 ∙ g.period;
      passed = g.passed + (now - t.deadline_ns) / p + 1;
      on_grid = clear_moves s p t now v g hp hon room c;
    }
    | inr c ↦ record {
      is_on = (kept t now v g.is_on hon).0;
      periodic = (kept t now v g.is_on hon).1 ∙ g.periodic;
      period = ap (λ x. x * 1000) (kept t now v g.is_on hon).2 ∙ g.period;
      passed = g.passed;
      on_grid = write_control-same t now v g.is_on hon c ∙ g.on_grid;
    }
  ]

  writes-OnGrid :
      (t : IntervalTimer) (cs : List (ℕ × ℕ))
      → OnGrid s p t
      → StayOn p cs
      → OnGrid s p (writes t cs)
  writes-OnGrid t [] g h = g
  writes-OnGrid t ((now, v) ∷ cs) g h =
      writes-OnGrid (write_control t now v) cs (write_control-OnGrid t now v g h.0 h.1) h.2

turned_on-OnGrid :
    (t : IntervalTimer) (now v : ℕ)
    → t.on ≡ false
    → 1 ≤ t.period_us
    → bit v 0 ≡ true
    → bit v 2 ≡ false
    → now + t.period_us * 1000 < 2 ^ 64
    → OnGrid now (t.period_us * 1000) (write_control t now v)
unfolding write_control after
turned_on-OnGrid t now v off pos hon periodic room = record {
  is_on = ground arith;
  periodic = ground arith;
  period = ground arith;
  passed = 0;
  on_grid = ground arith;
}

-- A periodic timer turned on at `now` with a period keeps to the grid of that instant: after any
-- control writes that leave it on, whatever flags they clear and whenever they come, its next
-- rise, or the rise not yet cleared, is a whole number of periods, one at least, after `now`.
pub rises-OnGrid :
    (t : IntervalTimer) (now v : ℕ) (cs : List (ℕ × ℕ))
    → t.on ≡ false
    → 1 ≤ t.period_us
    → bit v 0 ≡ true
    → bit v 2 ≡ false
    → now + t.period_us * 1000 < 2 ^ 64
    → StayOn (t.period_us * 1000) cs
    → OnGrid now (t.period_us * 1000) (writes (write_control t now v) cs)
rises-OnGrid t now v cs off pos hon periodic room h =
    writes-OnGrid now (t.period_us * 1000) (omega arith) (write_control t now v) cs
      (turned_on-OnGrid t now v off pos hon periodic room) h
