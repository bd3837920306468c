-- ===== src/Checkpoint/Packing/Varint.antt =====
-- A count is read back as it was written.
use muir.Base.{ℕ, zero, suc, ◌+◌, ◌*◌, ◌/◌, ◌%◌, ◌^◌, ◌≤◌, ◌<◌, ◌≡◌, refl, ap, ◌∙◌}
use muir.Base.{
  true, false, List, [], ◌∷◌, ◌++◌, arith, length, bit_or, low_bits, ◌<<<◌, bit, ltb, Bool-cases,
  inl, inr,
}
use muir.Base.Bits.{bit_or-disjoint_low}
use native.Mathlib.Nat.{pow-suc, mul-le-mul_right}
use muir.Checkpoint.{ok}
use muir.Checkpoint.Packing.{varint_groups, unvarint_groups, varint, unvarint}

shifted-lt : (s b x : ℕ) → x < 2 ^ b → x * 2 ^ s < 2 ^ (b + s)
shifted-lt zero b x h = let e : 2 ^ (b + 0) ≡ 2 ^ b = ap (λ k. 2 ^ k) (omega arith) in omega arith
shifted-lt (suc s) b x h =
    let e : 2 ^ (b + suc s) ≡ 2 ^ (b + s) * 2 = ap (λ k. 2 ^ k) (omega arith) ∙ pow-suc 2 (b + s) in
    ground (arith, shifted-lt s b x h, pow-suc 2 s, ap (λ (t : ℕ). x * t) (pow-suc 2 s))

pow_shift : (s k : ℕ) → 2 ^ (s + k) ≡ 2 ^ s * 2 ^ k
pow_shift s zero = let e : 2 ^ (s + 0) ≡ 2 ^ s = ap (λ k. 2 ^ k) (omega arith) in omega arith
pow_shift s (suc k) =
    ap (λ k. 2 ^ k) {y = suc (s + k)} (omega arith)
    ∙ ground (
      arith,
      pow-suc 2 (s + k),
      pow_shift s k,
      pow-suc 2 k,
      ap (λ (t : ℕ). 2 ^ s * t) (pow-suc 2 k),
    )

module _ (s acc byte : ℕ) (rest : List ℕ) (low : acc < 2 ^ s) (seven : byte < 2 ^ 7)
    (fits : byte * 2 ^ s < 2 ^ 64) where
  group-sum : bit_or acc (low_bits (byte <<< s) 64) ≡ byte * 2 ^ s + acc
  group-sum =
      let whole : low_bits (byte <<< s) 64 ≡ byte * 2 ^ s = omega arith in
      rw whole (bit_or-disjoint_low s acc byte low)

  last_group : (n : ℕ) → unvarint_groups (suc n) s acc (byte ∷ rest) ≡ ok (byte * 2 ^ s + acc, rest)
  unfolding unvarint_groups
  last_group n =
      let b : bit byte 7 ≡ false = ground arith in
      let l : low_bits byte 7 ≡ byte = omega arith in ground (arith, group-sum)

  more_groups :
      (n : ℕ)
      → unvarint_groups (suc n) s acc (bit_or byte 0x80 ∷ rest)
        ≡ unvarint_groups n (s + 7) (byte * 2 ^ s + acc) rest
  unfolding unvarint_groups
  more_groups n =
      let e : bit_or byte 0x80 ≡ 2 ^ 7 + byte = omega (arith, bit_or-disjoint_low 7 byte 1 seven) in
      let b : bit (2 ^ 7 + byte) 7 ≡ true = ground arith in
      let l : low_bits (2 ^ 7 + byte) 7 ≡ byte = omega arith in ground (arith, group-sum)

varint_last : (k v : ℕ) → v < 2 ^ 7 → varint_groups (suc k) v ≡ v ∷ []
unfolding varint_groups
varint_last k v h = ground arith

varint_more :
    (k v : ℕ)
    → 2 ^ 7 ≤ v
    → varint_groups (suc k) v ≡ bit_or (v % 2 ^ 7) 0x80 ∷ varint_groups k (v / 2 ^ 7)
unfolding varint_groups
varint_more k v h = ground arith

shifted-fits : (k s v : ℕ) → s + 7 * k ≡ 63 → v < 2 ^ (7 * k + 1) → v * 2 ^ s < 2 ^ 64
shifted-fits k s v total h =
    let e : 2 ^ (7 * k + 1 + s) ≡ 2 ^ 64 =
      ap (λ n. 2 ^ n) {x = 7 * k + 1 + s} {y = 64} (omega arith) in
    omega (arith, shifted-lt s (7 * k + 1) v h)

-- A number times `t` as its low seven bits and the rest.
split_groups : (v t : ℕ) → v * t ≡ v % 2 ^ 7 * t + v / 2 ^ 7 * (t * 2 ^ 7)
split_groups v t =
    let e : v ≡ v % 2 ^ 7 + v / 2 ^ 7 * 2 ^ 7 = omega arith in ap (λ n. n * t) e ∙ ground arith

group-lt : (x a t : ℕ) → x < 2 ^ 7 → a < t → x * t + a < t * 2 ^ 7
group-lt x a t h l = let e : suc x * t ≤ 2 ^ 7 * t = mul-le-mul_right t h in omega arith

-- The groups that are left hold the number, each where its shift puts it.
unvarint-varint_groups :
    (k s acc v : ℕ) (rest : List ℕ)
    → s + 7 * k ≡ 63
    → acc < 2 ^ s
    → v < 2 ^ (7 * k + 1)
    → unvarint_groups (suc k) s acc (varint_groups (suc k) v ++ rest) ≡ ok (v * 2 ^ s + acc, rest)
unvarint-varint_groups zero s acc v rest total low fits =
    rw (varint_last zero v (omega arith))
      (last_group s acc v rest low (omega arith) (shifted-fits zero s v total fits) 0)
unvarint-varint_groups (suc k) s acc v rest total low fits =
    let f = shifted-fits (suc k) s v total fits in
    elim (Bool-cases (ltb v (2 ^ 7))) [
      | inl b ↦
          let small : v < 2 ^ 7 = ground arith in
          rw (varint_last (suc k) v small) (last_group s acc v rest low small f (suc k))
      | inr b ↦
          let large : 2 ^ 7 ≤ v = ground arith in
          let sum = split_groups v (2 ^ s) in
          let next = pow_shift s 7 in
          let scale : v / 2 ^ 7 * 2 ^ (s + 7) ≡ v / 2 ^ 7 * (2 ^ s * 2 ^ 7) =
            ap (λ t. v / 2 ^ 7 * t) next in
          let exponent : 2 ^ (7 * suc k + 1) ≡ 2 ^ (7 * k + 1 + 7) =
            ap (λ n. 2 ^ n) {x = 7 * suc k + 1} {y = 7 * k + 1 + 7} (omega arith) in
          rw (varint_more (suc k) v large) (
            more_groups s acc (v % 2 ^ 7) (varint_groups (suc k) (v / 2 ^ 7) ++ rest) low
              (omega arith) (omega arith) (suc k)
            ∙ unvarint-varint_groups k (s + 7) (v % 2 ^ 7 * 2 ^ s + acc) (v / 2 ^ 7) rest
                (omega arith) (omega (arith, group-lt (v % 2 ^ 7) acc (2 ^ s) (omega arith) low))
                (omega (arith, pow_shift (7 * k + 1) 7, exponent))
            ∙ ap (λ n. ok (n, rest)) (omega arith))
    ]

-- Every count of 64 bits is read back, and what follows it is left.
pub unvarint-varint :
    (v : ℕ) (rest : List ℕ) → v < 2 ^ 64 → unvarint (varint v ++ rest) ≡ ok (v, rest)
unvarint-varint v rest h =
    unvarint-varint_groups 9 0 0 v rest refl (omega arith) h ∙ ap (λ n. ok (n, rest)) (omega arith)

pub varint-length : (v : ℕ) → 1 ≤ length (varint v)
varint-length v = elim (Bool-cases (ltb v (2 ^ 7))) [
  | inl b ↦ let small : v < 2 ^ 7 = ground arith in rw (varint_last 9 v small) (omega arith)
  | inr b ↦ let large : 2 ^ 7 ≤ v = ground arith in rw (varint_more 9 v large) (omega arith)
]
