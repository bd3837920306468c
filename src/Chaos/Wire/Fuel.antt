-- ===== src/Chaos/Wire/Fuel.antt =====
-- The loops of `decode` end by their tests, on three rounds of fuel.
use muir.Base.{ℕ, zero, suc, ◌+◌, ◌≤◌, ◌<◌, max, some, none, ◌≡◌}
use muir.Base.{arith, of_bool, inl, inr, Option-cases, Bool-cases, leb}
use muir.Chaos.Wire.{Decoder, Run, next_due, at, tick, drain, finish, is_some, rounds}

-- What a decoder may still have to be told of: a sample, the end of its packet.
abbrev pub pending : Decoder → ℕ
pending d = of_bool (is_some d.sample) + of_bool (is_some d.cell)

pub at-pending :
    (d : Decoder) (t due : ℕ) → next_due d ≡ some due → due ≤ t → pending (at d t).0 < pending d
unfolding at next_due
at-pending d t due e h = ground arith

tick-pending :
    (r : Run) (t due : ℕ)
    → next_due r.decoder ≡ some due
    → due ≤ t
    → pending (tick r t).decoder < pending r.decoder
unfolding tick
tick-pending r t due e h = at-pending r.decoder t due e h

-- The test that ends `drain` fails or there is nothing due.
abbrev pub Stopped : ℕ → Decoder → Type 0
Stopped limit d = (due : ℕ) → next_due d ≡ some due → limit < due

drain-Stopped_of_fuel :
    (fuel limit : ℕ) (r : Run)
    → pending r.decoder < fuel
    → Stopped limit (drain fuel limit r).decoder
unfolding drain
drain-Stopped_of_fuel zero limit r h = elim h [ ]
drain-Stopped_of_fuel (suc fuel) limit r h = elim (Option-cases (next_due r.decoder)) [
  | inl e ↦ rw (e, drain) (λ due q. ground (arith, e))
  | inr (due, e) ↦ elim (Bool-cases (leb due limit)) [
    | inl more ↦
        rw (e, drain, more)
          (drain-Stopped_of_fuel fuel limit (tick r due)
            (omega (arith, tick-pending r due due e (omega arith))))
    | inr over ↦ rw (e, drain, over) (λ due' q. ground (arith, e))
  ]
]

finish-none_of_fuel :
    (fuel : ℕ) (r : Run) → pending r.decoder < fuel → next_due (finish fuel r).decoder ≡ none
unfolding finish
finish-none_of_fuel zero r h = elim h [ ]
finish-none_of_fuel (suc fuel) r h = elim (Option-cases (next_due r.decoder)) [
  | inl e ↦ rw (e, finish) e
  | inr (due, e) ↦
      rw (e, finish)
        (finish-none_of_fuel fuel (tick r (max due r.time))
          (omega (arith, tick-pending r (max due r.time) due e (omega arith))))
]

pending-le : (d : Decoder) → pending d < rounds
pending-le d = ground arith

-- Three rounds are enough for either loop of `decode`, whatever the decoder's state: the inner
-- loop stops because nothing is due up to the change, and the last because nothing is due at all.
pub loops_end :
    (limit : ℕ) (r : Run)
    → Stopped limit (drain rounds limit r).decoder × (next_due (finish rounds r).decoder ≡ none)
loops_end limit r = (
  drain-Stopped_of_fuel rounds limit r (pending-le r.decoder),
  finish-none_of_fuel rounds r (pending-le r.decoder),
)
