-- ===== src/Chaos/Wire/RoundTrip.antt =====
-- A waveform decodes to the packet that it encodes.
use muir.Base.{ℕ, ◌+◌, ◌*◌, ◌≤◌, List, [], ◌∷◌, ◌++◌, Bool, true, false, not}
use muir.Base.{some, none, ◌≡◌, refl, ap, ◌∙◌, arith, if◌then◌else◌}
use mathlib.Core.List.{append_assoc}
use muir.Chaos.Wire.{
  Decoder, Run, next_due, at, tick, drain, finish, edge, change, changes, encode_from,
}
use muir.Chaos.Wire.{same, encode, decode, new}

-- The decoder in the middle of cell `c`, holding the level `p` of its bit, its last edge at `e`.
abbrev in_cell : ℕ → ℕ → Bool → List Bool → Decoder
in_cell c e p bits = record {
  level = p;
  cell = some c;
  sample = some (c + 175);
  bits = bits;
  last_edge = some e;
}

abbrev run : Decoder → ℕ → Run
run d t = record { decoder = d; time = t; out = [] }

-- Up to the next cell's opening edge the sample is taken, and nothing else.
drain-in_cell :
    (c e t : ℕ) (p : Bool) (bits : List Bool)
    → c ≤ e
    → e ≤ c + 125
    → drain 3 (c + 250) (run (in_cell c e p bits) t)
      ≡ run (record (in_cell c e p bits) { sample = none; bits = bits ++ (p ∷ []) }) (c + 175)
unfolding drain next_due tick at
drain-in_cell c e t p bits h k = ground arith

-- The opening edge of the next cell.
open_edge :
    (c e t : ℕ) (p : Bool) (bits : List Bool)
    → c ≤ e
    → e ≤ c + 125
    → change (run (in_cell c e p bits) t) (c + 250, not p)
      ≡ run (in_cell (c + 250) (c + 250) (not p) (bits ++ (p ∷ []))) (c + 250)
unfolding change edge
open_edge c e t p bits h k = rw (drain-in_cell c e t p bits h k) (ground arith)

-- The edge in the middle of a cell, which the lockout keeps from opening another.
mid_edge :
    (c t : ℕ) (p : Bool) (bits : List Bool)
    → t ≤ c
    → change (run (in_cell c c (not p) bits) t) (c + 125, p)
      ≡ run (in_cell c (c + 125) p bits) (c + 125)
unfolding change edge drain next_due tick at
mid_edge c t p bits h = ground arith

first_edge : change (run new 0) (0, true) ≡ run (in_cell 0 0 true []) 0
unfolding change edge drain next_due
first_edge = refl

-- The last sample and the idle line after it deliver the packet.
deliver :
    (c e t : ℕ) (bits : List Bool)
    → c ≤ e
    → (finish 3 (run (in_cell c e false bits) t)).out ≡ (bits ++ (false ∷ [])) ∷ []
unfolding finish next_due tick at
deliver c e t bits h = ground arith

-- The level at the end of a run of bits that begins with `p`.
abbrev pub last : Bool → List Bool → Bool
last p [] = p
last p (b ∷ bs) = last b bs

-- The last edge of the cell at `c` of the bit `b` after `p`.
abbrev settled : Bool → Bool → ℕ → ℕ
settled b p c = if same b p then c + 125 else c

cell_step :
    (bs : List Bool) (k c e t : ℕ) (b p : Bool) (bits : List Bool)
    → k * 250 ≡ c + 250
    → c ≤ e
    → e ≤ c + 125
    → changes (run (in_cell c e p bits) t) (encode_from k p p (b ∷ bs))
      ≡ changes
          (run
            (in_cell (c + 250) (settled b p (c + 250)) b (bits ++ (p ∷ [])))
            (settled b p (c + 250)))
          (encode_from (k + 1) b b bs)
unfolding changes encode_from
cell_step bs k c e t true true bits hk h1 h2 =
    rw
      (
        hk,
        open_edge c e t true bits h1 h2,
        mid_edge (c + 250) (c + 250) true (bits ++ (true ∷ [])) (omega arith),
      )
      refl
cell_step bs k c e t false false bits hk h1 h2 =
    rw
      (
        hk,
        open_edge c e t false bits h1 h2,
        mid_edge (c + 250) (c + 250) false (bits ++ (false ∷ [])) (omega arith),
      )
      refl
cell_step bs k c e t true false bits hk h1 h2 = rw (hk, open_edge c e t false bits h1 h2) refl
cell_step bs k c e t false true bits hk h1 h2 = rw (hk, open_edge c e t true bits h1 h2) refl

decode_from :
    (bs : List Bool) (k c e t : ℕ) (p : Bool) (bits : List Bool)
    → k * 250 ≡ c + 250
    → c ≤ e
    → e ≤ c + 125
    → last p bs ≡ false
    → (finish 3 (changes (run (in_cell c e p bits) t) (encode_from k p p bs))).out
      ≡ (bits ++ (p ∷ bs)) ∷ []
unfolding changes encode_from
decode_from [] k c e t p bits hk h1 h2 hl = rw hl (deliver c e t bits h1)
decode_from (b ∷ bs) k c e t p bits hk h1 h2 hl =
    ap (λ r. (finish 3 r).out) (cell_step bs k c e t b p bits hk h1 h2)
    ∙ decode_from bs (k + 1) (c + 250) (settled b p (c + 250)) (settled b p (c + 250)) b
        (bits ++ (p ∷ [])) (omega arith) (ground arith) (ground arith) hl
    ∙ ap (λ l. l ∷ []) (append_assoc bits (p ∷ []) (b ∷ bs))

-- A packet's bits that end in a zero, which every frame's do, are delivered by the decoder whole
-- and in order, as one packet, from the level changes that encode them.
pub decode-encode :
    (b : Bool) (bs : List Bool) → last b bs ≡ false → decode (encode (b ∷ bs)) ≡ (b ∷ bs) ∷ []
unfolding decode encode encode_from changes
decode-encode true bs h =
    ap (λ r. (finish 3 (changes r (encode_from 1 true true bs))).out) first_edge
    ∙ decode_from bs 1 0 0 0 true [] refl (omega arith) (omega arith) h
decode-encode false bs h =
    ap (λ r. (finish 3 (changes r (encode_from 1 false false bs))).out)
      (ap (λ r. change r (125, false)) first_edge ∙ mid_edge 0 0 false [] (omega arith))
    ∙ decode_from bs 1 0 125 125 false [] refl (omega arith) (omega arith) h
