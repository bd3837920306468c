-- ===== src/Video/Sync/Periods.antt =====
-- The answers repeat with the program's period.
use muir.Base.{ℕ, ◌+◌, ◌*◌, ◌/◌, ◌%◌, ◌≤◌, ◌<◌, false, List, [], ◌∷◌}
use muir.Base.{◌≡◌, refl, ap, ap₂, ◌∙◌, arith, length, sym}
use native.Mathlib.Nat.{add-mod_right, add-div_right, div-add-mod', mod-lt}
use muir.Video.Sync.{Timeline, signals_at, last_signals, sync_at, passed, tvma_clrs_by}
use muir.Video.Sync.{clear_after, next_of, next_tvma_clr_after}

clear_after-later :
    (cs : List ℕ) (into otherwise : ℕ) → into < otherwise → into < clear_after cs into otherwise
unfolding clear_after
clear_after-later [] into otherwise h = h
clear_after-later (c ∷ cs) into otherwise h = ground (arith, clear_after-later cs into otherwise h)

next_of-eq :
    (t : Timeline) (s c : ℕ) (cs : List ℕ)
    → t.tvma_clr ≡ c ∷ cs
    → next_tvma_clr_after t s
      ≡ s / t.period_ns * t.period_ns + clear_after (c ∷ cs) (s % t.period_ns) (t.period_ns + c)
unfolding next_tvma_clr_after
next_of-eq t s c cs e = ap (λ x. next_of x s t.period_ns) e

-- A period later the sync signals are the same, the clears are more by those of one run, and the
-- next clear, where the program has one, is a period later.
pub sync_at-period :
    (t : Timeline) (s c : ℕ) (cs : List ℕ)
    → 1 ≤ t.period_ns
    → t.tvma_clr ≡ c ∷ cs
    → (sync_at t (s + t.period_ns) ≡ sync_at t s)
      × (tvma_clrs_by t (s + t.period_ns) ≡ tvma_clrs_by t s + length t.tvma_clr)
      × (next_tvma_clr_after t (s + t.period_ns) ≡ next_tvma_clr_after t s + t.period_ns)
unfolding sync_at tvma_clrs_by
sync_at-period t s c cs h e =
    let p = t.period_ns in
    let place = add-mod_right s p in
    let run = add-div_right s h in
    let n = length t.tvma_clr in
    (
      ap (λ x. signals_at t.changes x (last_signals t.changes (false, false))) place,
      ap₂ (λ r x. r * n + passed t.tvma_clr x) run place ∙ omega arith,
      next_of-eq t (s + p) c cs e
          ∙ ap₂ (λ r x. r * p + clear_after (c ∷ cs) x (p + c)) run place
          ∙ omega (arith, next_of-eq t s c cs e),
    )

-- The next clear, where the program has one, is later than now.
pub next_tvma_clr_after-later :
    (t : Timeline) (s c : ℕ) (cs : List ℕ)
    → 1 ≤ t.period_ns
    → t.tvma_clr ≡ c ∷ cs
    → s < next_tvma_clr_after t s
next_tvma_clr_after-later t s c cs h e =
    let p = t.period_ns in
    omega (
      arith,
      next_of-eq t s c cs e,
      div-add-mod' s p,
      clear_after-later (c ∷ cs) (s % p) (p + c) (omega (arith, mod-lt s h)),
    )

passed-same :
    (cs : List ℕ) (into x otherwise : ℕ)
    → into ≤ x
    → x < clear_after cs into otherwise
    → passed cs x ≡ passed cs into
unfolding clear_after passed
passed-same [] into x otherwise h k = refl
passed-same (c ∷ cs) into x otherwise h k = ground (arith, passed-same cs into x otherwise h)

-- From now until the next clear no clear is counted, within a run of the program.
pub tvma_clrs_by-until_next :
    (t : Timeline) (s u c : ℕ) (cs : List ℕ)
    → t.tvma_clr ≡ c ∷ cs
    → s ≤ u
    → u < next_tvma_clr_after t s
    → u / t.period_ns ≡ s / t.period_ns
    → tvma_clrs_by t u ≡ tvma_clrs_by t s
unfolding tvma_clrs_by
tvma_clrs_by-until_next t s u c cs e h k same =
    let p = t.period_ns in
    let n = length t.tvma_clr in
    let started = ap (λ r. r * p) same in
    let here : s % p ≤ u % p = omega (arith, started, div-add-mod' s p, div-add-mod' u p) in
    let early : u % p < clear_after (c ∷ cs) (s % p) (p + c) =
      omega (arith, started, next_of-eq t s c cs e, div-add-mod' u p) in
    let counted = passed-same (c ∷ cs) (s % p) (u % p) (p + c) here early in
    ap₂ (λ r x. r * n + x) same
      (ap (λ x. passed x (u % p)) e ∙ counted ∙ sym (ap (λ x. passed x (s % p)) e))
