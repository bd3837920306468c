-- ===== src/Chaos/Frame.antt =====
-- src/chaos/packet.rs, the hardware's view: the bits of a packet on the cable, and the words back
-- out of them.
mod Words
pub mod RoundTrip
pub mod Header
mod Examples
use muir.Base.{
  ℕ, zero, suc, ◌+◌, ◌-◌, ◌*◌, ◌/◌, ◌%◌, ◌^◌, bit_or, List, [], ◌∷◌, ◌++◌, reverse, Bool,
}
use muir.Base.{
  true, false, not, ◌&&◌, ◌||◌, Option, some, none, ◌==◌, ltb, leb, if◌then◌else◌, of_bool,
}
use muir.Base.{length, take, drop, get_or, replicate, ◌<<<◌, low_bits}
use muir.Chaos.Check.{bits_down, check_word}

-- The loops of `frame` that push each word's bits, most-significant first.
unfoldable pub word_bits : List ℕ → List Bool
word_bits [] = []
word_bits (w ∷ ws) = bits_down 16 w ++ word_bits ws

-- The words that go on the cable: the buffer, the source, the check word over both.
abbrev pub checked_words : List ℕ → ℕ → List ℕ
checked_words buffer source = let all = buffer ++ (source ∷ []) in all ++ (check_word all ∷ [])

unfoldable pub frame : List ℕ → ℕ → List Bool
frame buffer source = reverse (word_bits (checked_words buffer source)) ++ (false ∷ [])

-- The sixteen cells from `start`, least-significant first: the first `n` terms of the sum.
unfoldable pub wire_word : List Bool → ℕ → ℕ → ℕ
wire_word bits start zero = 0
wire_word bits start (suc n) =
    wire_word bits start n + (of_bool (get_or bits (start + n) false) <<< n)

unfoldable pub header_on_the_wire : List Bool → Option (ℕ × ℕ)
header_on_the_wire bits =
    if leb 48 (length bits)
    then some (wire_word bits (1 * 16) 16, wire_word bits (2 * 16) 16)
    else none

pub record Framed : Type 0 where
  pub buffer : List ℕ
  pub source : ℕ
  pub check : ℕ
  pub check_ok : Bool

pub record Received : Type 0 where
  pub framed : Framed
  pub bits : ℕ

-- `fold(0u16, |w, &b| w << 1 | b as u16)`, from an accumulator.
unfoldable pub fold_word : ℕ → List Bool → ℕ
fold_word w [] = w
fold_word w (b ∷ bs) = fold_word (bit_or (low_bits (w <<< 1) 16) (of_bool b)) bs

-- `bits.chunks(16).map(fold)` on `n` whole chunks.
unfoldable pub chunk_words : ℕ → List Bool → List ℕ
chunk_words zero bits = []
chunk_words (suc n) bits = fold_word 0 (take 16 bits) ∷ chunk_words n (drop 16 bits)

-- The three arms of `match n` in `received`: the buffer, the source, the check word.
unfoldable pub split_words : ℕ → List ℕ → List ℕ × ℕ × ℕ
split_words zero words = ([], 0, 0)
split_words (suc zero) words = ([], 0, get_or words 0 0)
split_words (suc (suc n)) words = (take n words, get_or words n 0, get_or words (n + 1) 0)

-- The end of `received`: the check word compared with that of the words before it.
unfoldable pub judge : Bool → List ℕ × ℕ × ℕ → Framed
judge whole (buffer, source, check) =
    let over = buffer ++ (source ∷ []) in
    record {
      buffer = buffer;
      source = source;
      check = check;
      check_ok = whole && check_word over == check;
    }

unfoldable pub received : List Bool → Received
unfolding judge
received bits =
    let count = length bits in
    let n = (count + 15) / 16 in
    let padded = bits ++ replicate (n * 16 - count) false in
    let words = chunk_words n (reverse padded) in
    let whole = count % 16 == 0 && leb 3 n in
    record { framed = judge whole (split_words n words); bits = count }

-- `bits.pop()`
abbrev pub pop : List Bool → List Bool
pop bits = take (length bits - 1) bits

-- Whether the last bit is there and false.
abbrev pub ends_low : List Bool → Bool
ends_low bits = not (get_or bits (length bits - 1) true)

pub data Unframed : Type 0 where
  ok : Framed → Unframed
  not_a_packet : ℕ → Unframed

unfoldable pub unframe : List Bool → Unframed
unframe all =
    let bits = if length all % 16 == 1 && ends_low all then pop all else all in
    if not (length bits % 16 == 0) || ltb (length bits) (3 * 16)
    then not_a_packet (length bits)
    else ok (received bits).framed

unfoldable pub unframe_any : List Bool → Received
unframe_any all = received (if ends_low all then pop all else all)
