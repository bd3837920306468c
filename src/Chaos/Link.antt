-- ===== src/Chaos/Link.antt =====
-- src/chaos/packet.rs and src/chaos/wire.rs together: a packet from one station to another.
mod Examples
use muir.Base.{
  ℕ, suc, ◌*◌, ◌^◌, ◌≤◌, ◌<◌, List, [], ◌∷◌, ◌++◌, Bool, true, false, ◌≡◌, refl, ap, ◌∙◌, length,
}
use muir.Base.{reverse, map}
use muir.Base.{AllBelow}
use muir.Chaos.Frame.{frame, word_bits, checked_words, unframe_any, Received}
use muir.Chaos.Frame.RoundTrip.{framed_of, unframe_any-frame}
use muir.Chaos.Wire.{encode, decode}
use muir.Chaos.Wire.RoundTrip.{last, decode-encode}

last-snoc : (b : Bool) (bs : List Bool) → last b (bs ++ (false ∷ [])) ≡ false
last-snoc b [] = refl
last-snoc b (c ∷ bs) = last-snoc c bs

decode-encode_snoc :
    (bits : List Bool) → decode (encode (bits ++ (false ∷ []))) ≡ (bits ++ (false ∷ [])) ∷ []
decode-encode_snoc [] = decode-encode false [] refl
decode-encode_snoc (b ∷ bits) = decode-encode b (bits ++ (false ∷ [])) (last-snoc b bits)

-- A buffer framed by the sender and put on the cable as level changes is delivered by the
-- decoder as one packet, in which the receiver finds the buffer, the source and a good check word.
pub delivered :
    (buffer : List ℕ) (source : ℕ)
    → AllBelow (2 ^ 16) buffer
    → source < 2 ^ 16
    → 1 ≤ length buffer
    → map unframe_any (decode (encode (frame buffer source)))
      ≡ record { framed = framed_of buffer source; bits = 16 * suc (suc (length buffer)) } ∷ []
unfolding frame
delivered buffer source h k pos =
    ap (map unframe_any) (decode-encode_snoc (reverse (word_bits (checked_words buffer source))))
    ∙ ap (λ r. r ∷ []) (unframe_any-frame buffer source h k pos)
