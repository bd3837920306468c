-- ===== src/Chaos/Packet/RoundTrip.antt =====
-- The buffer that `to_buffer` lays out is read back by `from_buffer`.
use muir.Base.{ℕ, zero, suc, ◌-◌, ◌+◌, ◌*◌, ◌%◌, ◌^◌, ◌≤◌, ◌<◌, List, [], ◌∷◌, ◌≡◌, refl, ap}
use muir.Base.{
  ap₂, AllBelow, length-drop, arith, length, take, drop, get_or, length-append, take_prefix,
  get_or_last,
}
use muir.Base.Bits.{bit_or-disjoint, bit_or-disjoint_low}
use muir.Chaos.Packet.{Packet, data_words, word_bytes, words, to_buffer, from_buffer, ok}
use muir.Chaos.Packet.{data_word_count}

-- The widths of the source's field types, `forward` a nibble and a byte count of twelve bits.
pub record IsPacket (p : Packet) : Type 0 where
  pub opcode_fits : p.opcode < 2 ^ 8
  pub forward_fits : p.forward < 2 ^ 4
  pub count_fits : length p.bytes < 2 ^ 12
  pub bytes_fit : AllBelow (2 ^ 8) p.bytes

pub length-data_words : (bs : List ℕ) → length (data_words bs) ≡ data_word_count (length bs)
unfolding data_words
length-data_words [] = refl
length-data_words (a ∷ []) = refl
length-data_words (a ∷ b ∷ rest) = omega (arith, length-data_words rest)

pub word_bytes-data_words :
    (bs : List ℕ) → AllBelow (2 ^ 8) bs → take (length bs) (word_bytes (data_words bs)) ≡ bs
unfolding data_words word_bytes
word_bytes-data_words [] h = refl
word_bytes-data_words (a ∷ []) h = ap (λ x. x ∷ []) (omega (arith, bit_or-disjoint_low 8 a 0 h.0))
word_bytes-data_words (a ∷ b ∷ rest) h =
    ap₂ ◌∷◌ (omega (arith, bit_or-disjoint_low 8 a b h.0))
      (ap₂ ◌∷◌ (omega (arith, bit_or-disjoint_low 8 a b h.0)) (word_bytes-data_words rest h.1.1))

module _ (p : Packet) (v : IsPacket p) (cable_dest : ℕ) where
  length-words : length (words p) ≡ 8 + data_word_count (length p.bytes)
  unfolding words
  length-words = omega (arith, length-data_words p.bytes)

  length-to_buffer : length (to_buffer p cable_dest) ≡ 9 + data_word_count (length p.bytes)
  unfolding to_buffer
  length-to_buffer = omega (arith, length-words, length-append {0} (words p) (cable_dest ∷ []))

  last-to_buffer :
      get_or (to_buffer p cable_dest) (8 + data_word_count (length p.bytes)) 0 ≡ cable_dest
  unfolding to_buffer
  last-to_buffer = get_or_last _ (words p) cable_dest 0 length-words

-- The buffer that `to_buffer` lays out is accepted by `from_buffer`, which gives back every field
-- of the packet, all its data bytes and the cable destination.
pub from_buffer-to_buffer :
    (p : Packet) (cable_dest : ℕ)
    → IsPacket p
    → from_buffer (to_buffer p cable_dest) ≡ ok p cable_dest
unfolding from_buffer to_buffer words
from_buffer-to_buffer p cable_dest v = ground (
  arith,
  length-to_buffer p v cable_dest,
  last-to_buffer p v cable_dest,
  bit_or-disjoint 12 p.forward (length p.bytes) v.count_fits,
  take_prefix (data_word_count (length p.bytes)) (data_words p.bytes) (cable_dest ∷ [])
      (length-data_words p.bytes),
  word_bytes-data_words p.bytes v.bytes_fit,
)

length-word_bytes : (ws : List ℕ) → length (word_bytes ws) ≡ 2 * length ws
unfolding word_bytes
length-word_bytes [] = refl
length-word_bytes (w ∷ ws) = omega (arith, length-word_bytes ws)

length-take_short : (n : ℕ) (xs : List ℕ) → n ≤ length xs → length (take n xs) ≡ n
length-take_short zero xs h = refl
length-take_short (suc n) [] h = absurd (omega arith)
length-take_short (suc n) (x ∷ xs) h = omega (arith, length-take_short n xs (omega arith))

-- What `from_buffer` accepts is exactly as long as its packet's byte count asks for, the packet
-- holds as many bytes as the count word says, and the cable destination is the last word.
pub from_buffer_accepts :
    (buffer : List ℕ) (p : Packet) (cable_dest : ℕ)
    → from_buffer buffer ≡ ok p cable_dest
    → (length p.bytes ≡ get_or buffer 1 0 % 2 ^ 12)
      × (length buffer ≡ 9 + data_word_count (length p.bytes))
      × (cable_dest ≡ get_or buffer (length buffer - 1) 0)
unfolding from_buffer
from_buffer_accepts buffer p cable_dest h =
    let count = get_or buffer 1 0 % 2 ^ 12 in
    let n = data_word_count count in
    ground (
      arith,
      length-take_short count (word_bytes (take n (drop 8 buffer))),
      length-word_bytes (take n (drop 8 buffer)),
      length-take_short n (drop 8 buffer),
      length-drop 8 buffer,
    )
