-- ===== src/Chaos/Wire/Examples.antt =====
-- Bits on the cable and off it again.
use muir.Base.{none, [], ◌∷◌, true, false, ◌≡◌, refl}
use muir.Chaos.Wire.{
  encode, encode_from, decode, changes, change, drain, finish, tick, at, edge, next_due,
}
use muir.Chaos.Wire.{Run, new, rounds}
use muir.Chaos.Wire.Fuel.{Stopped, loops_end}
use muir.Chaos.Wire.RoundTrip.{decode-encode}

three_bits : decode (encode (true ∷ true ∷ false ∷ [])) ≡ (true ∷ true ∷ false ∷ []) ∷ []
unfolding encode encode_from decode changes change drain finish tick at edge next_due
three_bits = refl

decode-encode_example : decode (encode (true ∷ false ∷ [])) ≡ (true ∷ false ∷ []) ∷ []
decode-encode_example = decode-encode true (false ∷ []) refl

abbrev one_edge : Run
unfolding edge
one_edge = record { decoder = edge new 0 true; time = 0; out = [] }

loops_end_example :
    Stopped 250 (drain rounds 250 one_edge).decoder
    × (next_due (finish rounds one_edge).decoder ≡ none)
loops_end_example = loops_end 250 one_edge
