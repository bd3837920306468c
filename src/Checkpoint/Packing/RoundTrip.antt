-- ===== src/Checkpoint/Packing/RoundTrip.antt =====
-- A packed body is unpacked to what was packed.
use muir.Base.{ℕ, zero, suc, ◌+◌, ◌-◌, ◌≤◌, ◌<◌, ◌≡◌, refl, ap, sym, ◌∙◌}
use muir.Base.{true, List, [], ◌∷◌, ◌++◌, arith, length, leb}
use muir.Base.{
  take, drop, replicate, take-append-drop, length-drop, length-append, length-take_of_le,
}
use muir.Base.{take_prefix, drop_prefix, length-replicate}
use mathlib.Core.List.{append-nil, append_assoc}
use muir.Checkpoint.{ok, ◌>>=◌, ◌>>◌, guard, literals_run_off, zeros_past}
use muir.Checkpoint.Packing.{
  varint, unvarint, pack, unpack, pack_turns, unpack_turns, count_zeros, literals, passed, max_body,
}
use muir.Checkpoint.Packing.Varint.{unvarint-varint, varint-length}

count_zeros-split : (bs : List ℕ) → replicate (count_zeros bs) 0 ++ drop (count_zeros bs) bs ≡ bs
unfolding count_zeros
count_zeros-split [] = refl
count_zeros-split (zero ∷ bs) = ap (λ t. 0 ∷ t) (count_zeros-split bs)
count_zeros-split (suc b ∷ bs) = refl

count_zeros-le : (bs : List ℕ) → count_zeros bs ≤ length bs
unfolding count_zeros
count_zeros-le [] = omega arith
count_zeros-le (zero ∷ bs) = omega (arith, count_zeros-le bs)
count_zeros-le (suc b ∷ bs) = omega arith

passed-le : (bs : List ℕ) → passed bs ≤ length bs
unfolding passed
passed-le [] = omega arith
passed-le (suc b ∷ bs) = omega arith
passed-le (zero ∷ bs) = ground (arith, count_zeros-le (zero ∷ bs))

literals-le : (n : ℕ) (bs : List ℕ) → literals n bs ≤ length bs
unfolding literals
literals-le zero bs = omega arith
literals-le (suc n) bs = go (passed bs) (passed-le bs) (λ k. literals-le n (drop k bs))
  where
    go :
        (k : ℕ)
        → k ≤ length bs
        → ((i : ℕ) → literals n (drop i bs) ≤ length (drop i bs))
        → elim k [ zero ↦ 0 | suc j ↦ suc j + literals n (drop (suc j) bs) ] ≤ length bs
    go zero h le = omega arith
    go (suc j) h le = omega (arith, le (suc j), length-drop {0} (suc j) bs)

literals-pos : (b : ℕ) (bs : List ℕ) → 1 ≤ literals (length (suc b ∷ bs)) (suc b ∷ bs)
unfolding literals passed
literals-pos b bs = omega arith

-- A turn that starts at a byte goes past it.
turn_progress :
    (b : ℕ) (bs : List ℕ)
    → let rest = drop (count_zeros (b ∷ bs)) (b ∷ bs) in
      length (drop (literals (length rest) rest) rest) ≤ length bs
unfolding count_zeros
turn_progress zero bs =
    let rest = drop (count_zeros bs) bs in
    omega (
      arith,
      length-drop {0} (literals (length rest) rest) rest,
      length-drop {0} (count_zeros bs) bs,
    )
turn_progress (suc b) bs = omega (
  arith,
  length-drop {0} (literals (length (suc b ∷ bs)) (suc b ∷ bs)) (suc b ∷ bs),
  literals-pos b bs,
)

unpack_turns-step :
    (m : ℕ) (out packed : List ℕ)
    → 1 ≤ length packed
    → unpack_turns (suc m) out packed ≡ (do
      (zeros, after) ← unvarint packed
      (count, rest) ← unvarint after
      guard (leb count (length rest)) literals_run_off
      guard (leb zeros (max_body - length out)) (zeros_past zeros)
      unpack_turns m (out ++ replicate zeros 0 ++ take count rest) (drop count rest))
unfolding unpack_turns
unpack_turns-step m out [] h = absurd (omega arith)
unpack_turns-step m out (b ∷ bs) h = refl

-- One turn of `unpack` undoes one of `pack`.
unpack_turn :
    (m z count : ℕ) (out lits tail : List ℕ)
    → length lits ≡ count
    → z + count + length out ≤ max_body
    → unpack_turns (suc m) out (varint z ++ (varint count ++ (lits ++ tail)))
      ≡ unpack_turns m (out ++ replicate z 0 ++ lits) tail
unpack_turn m z count out lits tail e h =
    let more = varint count ++ (lits ++ tail) in
    let fits : leb count (length (lits ++ tail)) ≡ true =
      ground (arith, length-append {0} lits tail) in
    let room : leb z (max_body - length out) ≡ true = ground arith in
    unpack_turns-step m out (varint z ++ more)
      (omega (arith, length-append {0} (varint z) more, varint-length z))
    ∙ rw (
      unvarint-varint z more (omega arith),
      unvarint-varint count (lits ++ tail) (omega arith),
      fits,
      room,
      take_prefix count lits tail e,
      drop_prefix count lits tail e,
    )

pack_turns-cons :
    (n b : ℕ) (bs : List ℕ)
    → let zeros = count_zeros (b ∷ bs) in
      let rest = drop zeros (b ∷ bs) in
      let count = literals (length rest) rest in
      pack_turns (suc n) (b ∷ bs)
      ≡ varint zeros ++ (varint count ++ (take count rest ++ pack_turns n (drop count rest)))
unfolding pack_turns
pack_turns-cons n b bs = refl

-- The bytes of a turn and those after it.
turn-split :
    (raw : List ℕ)
    → let zeros = count_zeros raw in
      let rest = drop zeros raw in
      let count = literals (length rest) rest in
      replicate zeros 0 ++ take count rest ++ drop count rest ≡ raw
turn-split raw =
    let zeros = count_zeros raw in
    let rest = drop zeros raw in
    let count = literals (length rest) rest in
    append_assoc (replicate zeros 0) (take count rest) (drop count rest)
    ∙ ap (λ t. replicate zeros 0 ++ t) (take-append-drop count rest)
    ∙ count_zeros-split raw

turns-empty : (n m : ℕ) (out : List ℕ) → unpack_turns (suc m) out (pack_turns n []) ≡ ok (out ++ [])
unfolding unpack_turns pack_turns
turns-empty zero m out = ap ok (sym (append-nil out))
turns-empty (suc n) m out = ap ok (sym (append-nil out))

unpack_turns-pack_turns :
    (n m : ℕ) (out raw : List ℕ)
    → length raw ≤ n
    → length raw + length out ≤ max_body
    → length (pack_turns n raw) < m
    → unpack_turns m out (pack_turns n raw) ≡ ok (out ++ raw)
unpack_turns-pack_turns n zero out raw h room fuel = absurd (omega arith)
unpack_turns-pack_turns zero (suc m) out (b ∷ bs) h room fuel = absurd (omega arith)
unpack_turns-pack_turns zero (suc m) out [] h room fuel = turns-empty 0 m out
unpack_turns-pack_turns (suc n) (suc m) out [] h room fuel = turns-empty (suc n) m out
unpack_turns-pack_turns (suc n) (suc m) out (b ∷ bs) h room fuel =
    let raw = b ∷ bs in
    let zeros = count_zeros raw in
    let rest = drop zeros raw in
    let count = literals (length rest) rest in
    let lits = take count rest in
    let tail = drop count rest in
    let counted : length lits ≡ count =
      length-take_of_le count rest (literals-le (length rest) rest) in
    let held = length-drop {0} zeros raw in
    let le = literals-le (length rest) rest in
    let zle = count_zeros-le raw in
    let all : zeros + count + length tail ≡ length raw =
      omega (arith, length-drop {0} count rest) in
    let out' = out ++ replicate zeros 0 ++ lits in
    let size : length out' ≡ length out + zeros + count = omega (
      arith,
      length-append {0} (out ++ replicate zeros 0) lits,
      length-append {0} out (replicate zeros 0),
      length-replicate zeros (zero),
    ) in
    let more = lits ++ pack_turns n tail in
    rw (pack_turns-cons n b bs) (
      unpack_turn m zeros count out lits (pack_turns n tail) counted (omega arith)
      ∙ unpack_turns-pack_turns n m out' tail (omega (arith, turn_progress b bs)) (omega arith) (
          omega (
            arith,
            ap (length {A = ℕ}) (pack_turns-cons n b bs),
            length-append {0} (varint zeros) (varint count ++ more),
            length-append {0} (varint count) more,
            length-append {0} lits (pack_turns n tail),
            varint-length zeros,
          ))
      ∙ ap ok (
          append_assoc (out ++ replicate zeros 0) lits tail
          ∙ append_assoc out (replicate zeros 0) (lits ++ tail)
          ∙ ap (λ t. out ++ t) (sym (append_assoc (replicate zeros 0) lits tail) ∙ turn-split raw)))

-- A body of at most 2^32 bytes is unpacked from what `pack` makes of it, byte for byte.
pub unpack-pack : (raw : List ℕ) → length raw ≤ max_body → unpack (pack raw) ≡ ok raw
unpack-pack raw h =
    unpack_turns-pack_turns (length raw) (suc (length (pack raw))) [] raw (omega arith)
      (omega arith) (omega arith)
