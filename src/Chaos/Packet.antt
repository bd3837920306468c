-- ===== src/Chaos/Packet.antt =====
-- src/chaos/packet.rs, the software's view: the header words, the data words, the buffer.
pub mod RoundTrip
mod Examples
use muir.Base.{
  ℕ, suc, ◌+◌, ◌*◌, ◌/◌, ◌%◌, ◌^◌, bit_or, List, [], ◌∷◌, ◌++◌, Bool, true, ◌||◌, ltb, leb,
}
use muir.Base.{◌==◌, if◌then◌else◌, not, length, take, drop, get_or, ◌<<<◌, ◌>>>◌, low_bits}

-- The opcodes of the module `op`.
abbrev pub rfc : ℕ
rfc = 0o1

abbrev pub opn : ℕ
opn = 0o2

abbrev pub eof : ℕ
eof = 0o14

abbrev pub dat : ℕ
dat = 0o200

pub is_data : ℕ → Bool
is_data op = leb dat op

pub is_controlled : ℕ → Bool
unfolding is_data
is_controlled op = op == rfc || op == opn || op == eof || is_data op

-- `Packet`: the software header and the data, each field with its width in the source.
pub record Packet : Type 0 where
  pub opcode : ℕ
  pub forward : ℕ
  pub dest : ℕ
  pub dest_index : ℕ
  pub source : ℕ
  pub source_index : ℕ
  pub number : ℕ
  pub ack : ℕ
  pub bytes : List ℕ

-- The loop of `words` over `data.chunks(2)`: low byte first, an odd last byte padded with zero.
unfoldable pub data_words : List ℕ → List ℕ
data_words [] = []
data_words (a ∷ []) = bit_or a (0 <<< 8) ∷ []
data_words (a ∷ b ∷ rest) = bit_or a (b <<< 8) ∷ data_words rest

unfoldable pub words : Packet → List ℕ
words p =
    low_bits (p.opcode <<< 8) 16
    ∷ bit_or (low_bits (p.forward <<< 12) 16) (low_bits (length p.bytes) 12)
    ∷ p.dest
    ∷ p.dest_index
    ∷ p.source
    ∷ p.source_index
    ∷ p.number
    ∷ p.ack
    ∷ data_words p.bytes

unfoldable pub to_buffer : Packet → ℕ → List ℕ
unfolding words
to_buffer p cable_dest = words p ++ (cable_dest ∷ [])

-- The two errors of `from_buffer`, with the lengths that its messages name.
pub data Parsed : Type 0 where
  ok : Packet → ℕ → Parsed
  too_short : ℕ → Parsed
  wrong_length : ℕ → ℕ → ℕ → Parsed

-- The loop of `from_buffer` over the data words.
unfoldable pub word_bytes : List ℕ → List ℕ
word_bytes [] = []
word_bytes (w ∷ ws) = low_bits w 8 ∷ low_bits (w >>> 8) 8 ∷ word_bytes ws

-- `buffer[i]`, read only where the buffer is long enough.
abbrev at : List ℕ → ℕ → ℕ
at buffer i = get_or buffer i 0

abbrev byte_count : List ℕ → ℕ
byte_count buffer = low_bits (at buffer 1) 12

-- `count.div_ceil(2)`
abbrev pub data_word_count : ℕ → ℕ
data_word_count count = (count + 1) / 2

unfoldable pub from_buffer : List ℕ → Parsed
unfolding word_bytes
from_buffer buffer =
    if ltb (length buffer) 9
    then too_short (length buffer)
    else let count = byte_count buffer in
      let n = data_word_count count in
      if length buffer == 8 + n + 1
      then ok
          (record {
            opcode = low_bits (at buffer 0 >>> 8) 8;
            forward = low_bits (at buffer 1 >>> 12) 8;
            dest = at buffer 2;
            dest_index = at buffer 3;
            source = at buffer 4;
            source_index = at buffer 5;
            number = at buffer 6;
            ack = at buffer 7;
            bytes = take count (word_bytes (take n (drop 8 buffer)));
          })
          (at buffer (8 + n))
      else wrong_length count (8 + n + 1) (length buffer)
