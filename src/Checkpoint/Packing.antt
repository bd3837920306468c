-- ===== src/Checkpoint/Packing.antt =====
-- src/checkpoint.rs, the body as pairs of counts, zeros then literals, and the literal bytes.
use muir.Base.{ℕ, zero, suc, ◌+◌, ◌-◌, ◌^◌, Bool, true, false, List, [], ◌∷◌, ◌++◌, bit_or}
use muir.Base.{length, take, drop, replicate, leb, ◌==◌, if◌then◌else◌, not, low_bits, ◌<<<◌, ◌>>>◌}
use muir.Base.{bit}
use muir.Checkpoint.{
  Result, ok, err, ◌>>=◌, ◌>>◌, guard, count_runs_off, count_too_long, literals_run_off, zeros_past,
  out_of_fuel,
}
pub mod Varint
pub mod RoundTrip
pub mod Bounds

-- `varint`, on fuel: a count of 64 bits takes at most ten groups of seven.
pub varint_groups : ℕ → ℕ → List ℕ
varint_groups zero v = []
varint_groups (suc n) v =
    let byte = low_bits v 7 in
    let more = v >>> 7 in
    elim more [ zero ↦ byte ∷ [] | suc m ↦ bit_or byte 0x80 ∷ varint_groups n (suc m) ]

abbrev pub varint : ℕ → List ℕ
varint v = varint_groups 10 v

-- `unvarint`, on the bytes from `at` on: its shifts are 0, 7, … 63.
pub unvarint_groups : ℕ → ℕ → ℕ → List ℕ → Result (ℕ × List ℕ)
unvarint_groups zero shift v data_ = err count_too_long
unvarint_groups (suc n) shift v [] = err count_runs_off
unvarint_groups (suc n) shift v (byte ∷ rest) =
    let v' = bit_or v (low_bits (low_bits byte 7 <<< shift) 64) in
    elim (bit byte 7) [ true ↦ unvarint_groups n (shift + 7) v' rest | false ↦ ok (v', rest) ]

abbrev pub unvarint : List ℕ → Result (ℕ × List ℕ)
unvarint bytes = unvarint_groups 10 0 0 bytes

abbrev pub min_zero_run : ℕ
min_zero_run = 4

-- `iter().take_while(|&&b| b == 0).count()`
pub count_zeros : List ℕ → ℕ
count_zeros [] = 0
count_zeros (zero ∷ bs) = suc (count_zeros bs)
count_zeros (suc b ∷ bs) = 0

-- How far `i` moves in a turn of the inner loop, 0 where the loop breaks.
pub passed : List ℕ → ℕ
passed [] = 0
passed (suc b ∷ bs) = 1
passed (zero ∷ bs) = let run = count_zeros (zero ∷ bs) in if leb min_zero_run run then 0 else run

-- The inner loop's `i - start`, on fuel: a turn passes one byte at least.
pub literals : ℕ → List ℕ → ℕ
literals zero bs = 0
literals (suc n) bs = elim (passed bs) [ zero ↦ 0 | suc k ↦ suc k + literals n (drop (suc k) bs) ]

-- The outer loop of `pack`, on fuel: a turn packs one byte at least.
pub pack_turns : ℕ → List ℕ → List ℕ
pack_turns zero raw = []
pack_turns (suc n) [] = []
pack_turns (suc n) (b ∷ bs) =
    let zeros = count_zeros (b ∷ bs) in
    let rest = drop zeros (b ∷ bs) in
    let count = literals (length rest) rest in
    varint zeros ++ (varint count ++ (take count rest ++ pack_turns n (drop count rest)))

abbrev pub pack : List ℕ → List ℕ
pack raw = pack_turns (length raw) raw

abbrev pub max_body : ℕ
max_body = 2 ^ 32

-- The loop of `unpack`, on fuel, from the bytes after `at`: a turn takes two bytes at least.
pub unpack_turns : ℕ → List ℕ → List ℕ → Result (List ℕ)
unpack_turns zero out packed = err out_of_fuel
unpack_turns (suc n) out [] = ok out
unpack_turns (suc n) out (b ∷ bs) = do
  (zeros, after) ← unvarint (b ∷ bs)
  (count, rest) ← unvarint after
  guard (leb count (length rest)) literals_run_off
  guard (leb zeros (max_body - length out)) (zeros_past zeros)
  unpack_turns n (out ++ replicate zeros 0 ++ take count rest) (drop count rest)

abbrev pub unpack : List ℕ → Result (List ℕ)
unpack packed = unpack_turns (suc (length packed)) [] packed
