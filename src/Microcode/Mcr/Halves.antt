-- ===== src/Microcode/Mcr/Halves.antt =====
-- The swap of the halves gives the words in the other order, and is its own inverse.
use muir.Base.{ℕ, ◌+◌, ◌*◌, ◌^◌, ◌<◌, ◌/◌, All, ◌%◌, ◌≡◌, refl, ap, arith, List, [], ◌∷◌, length}
use muir.Base.{◌∙◌, suc, leb, true, bit_or, ◌<<<◌}
use muir.Base.Bits.{bit_or-disjoint}
use muir.Microcode.{ok, ◌>>=◌}
use muir.Microcode.Mcr.{swap_halves, swapped, u32_pdp, take_bytes, times}

length-swapped : (bytes : List ℕ) → length bytes % 4 ≡ 0 → length (swapped bytes) ≡ length bytes
length-swapped [] h = refl
length-swapped (a ∷ []) h = absurd (omega arith)
length-swapped (a ∷ b ∷ []) h = absurd (omega arith)
length-swapped (a ∷ b ∷ c ∷ []) h = absurd (omega arith)
length-swapped (a ∷ b ∷ c ∷ d ∷ rest) h = omega (arith, length-swapped rest (omega arith))

swapped-swapped : (bytes : List ℕ) → length bytes % 4 ≡ 0 → swapped (swapped bytes) ≡ bytes
swapped-swapped [] h = refl
swapped-swapped (a ∷ []) h = absurd (omega arith)
swapped-swapped (a ∷ b ∷ []) h = absurd (omega arith)
swapped-swapped (a ∷ b ∷ c ∷ []) h = absurd (omega arith)
swapped-swapped (a ∷ b ∷ c ∷ d ∷ rest) h =
    ap (λ t. a ∷ b ∷ c ∷ d ∷ t) (swapped-swapped rest (omega arith))

swap_halves-whole : (bytes : List ℕ) → length bytes % 4 ≡ 0 → swap_halves bytes ≡ ok (swapped bytes)
unfolding swap_halves
swap_halves-whole bytes h = ground arith

-- The words of a file, the least byte of each first.
unfoldable pub le_words : List ℕ → List ℕ
le_words (a ∷ b ∷ c ∷ d ∷ rest) = (d * 2 ^ 24 + c * 2 ^ 16 + b * 2 ^ 8 + a) ∷ le_words rest
le_words bytes = []

bytes_joined :
    (a b c d : ℕ)
    → a < 2 ^ 8
    → b < 2 ^ 8
    → c < 2 ^ 8
    → bit_or (bit_or (bit_or (d <<< 24) (c <<< 16)) (b <<< 8)) a
      ≡ d * 2 ^ 24 + c * 2 ^ 16 + b * 2 ^ 8 + a
bytes_joined a b c d ha hb hc =
    let e1 : bit_or (d * 2 ^ 24) (c * 2 ^ 16) ≡ d * 2 ^ 24 + c * 2 ^ 16 =
      bit_or-disjoint 24 d (c * 2 ^ 16) (omega arith) in
    let e2 : bit_or ((d * 2 ^ 8 + c) * 2 ^ 16) (b * 2 ^ 8) ≡ (d * 2 ^ 8 + c) * 2 ^ 16 + b * 2 ^ 8 =
      bit_or-disjoint 16 (d * 2 ^ 8 + c) (b * 2 ^ 8) (omega arith) in
    let e3 : bit_or ((d * 2 ^ 16 + c * 2 ^ 8 + b) * 2 ^ 8) a
        ≡ (d * 2 ^ 16 + c * 2 ^ 8 + b) * 2 ^ 8 + a =
      bit_or-disjoint 8 (d * 2 ^ 16 + c * 2 ^ 8 + b) a (omega arith) in
    let s1 : d * 2 ^ 24 + c * 2 ^ 16 ≡ (d * 2 ^ 8 + c) * 2 ^ 16 = omega arith in
    let s2 : (d * 2 ^ 8 + c) * 2 ^ 16 + b * 2 ^ 8 ≡ (d * 2 ^ 16 + c * 2 ^ 8 + b) * 2 ^ 8 =
      omega arith in
    ap (λ x. bit_or (bit_or x (b <<< 8)) a) (e1 ∙ s1)
    ∙ ap (λ x. bit_or x a) (e2 ∙ s2)
    ∙ e3
    ∙ omega arith

u32_pdp-halves :
    (a b c d : ℕ) (rest : List ℕ)
    → a < 2 ^ 8
    → b < 2 ^ 8
    → c < 2 ^ 8
    → u32_pdp (c ∷ d ∷ a ∷ b ∷ rest) ≡ ok (d * 2 ^ 24 + c * 2 ^ 16 + b * 2 ^ 8 + a, rest)
unfolding u32_pdp take_bytes
u32_pdp-halves a b c d rest ha hb hc =
    let four : leb 4 (length (c ∷ d ∷ a ∷ b ∷ rest)) ≡ true = ground arith in
    rw four (ap (λ v. ok (v, rest)) (bytes_joined a b c d ha hb hc))

times-u32_pdp :
    (bytes : List ℕ)
    → length bytes % 4 ≡ 0
    → All (λ b. b < 2 ^ 8) bytes
    → times (length bytes / 4) u32_pdp (swapped bytes) ≡ ok (le_words bytes, [])
unfolding le_words times
times-u32_pdp [] h l = refl
times-u32_pdp (a ∷ []) h l = absurd (omega arith)
times-u32_pdp (a ∷ b ∷ []) h l = absurd (omega arith)
times-u32_pdp (a ∷ b ∷ c ∷ []) h l = absurd (omega arith)
times-u32_pdp (a ∷ b ∷ c ∷ d ∷ rest) h l =
    let count : length (a ∷ b ∷ c ∷ d ∷ rest) / 4 ≡ suc (length rest / 4) = omega arith in
    let first = u32_pdp-halves a b c d (swapped rest) l.0 l.1.0 l.1.1.0 in
    let more = times-u32_pdp rest (omega arith) l.1.1.1.1 in rw (count, first, more) refl

-- A file of whole words with its halves swapped reads, in MIT's order of a word's bytes, as the
-- words of the file with the least byte of each first, to the last byte; and swapped again it is
-- the file. `swap_halves` refuses it neither time.
pub swap_halves-swap_halves :
    (bytes : List ℕ)
    → length bytes % 4 ≡ 0
    → All (λ b. b < 2 ^ 8) bytes
    → ((swap_halves bytes >>= times (length bytes / 4) u32_pdp) ≡ ok (le_words bytes, []))
      × ((swap_halves bytes >>= swap_halves) ≡ ok bytes)
swap_halves-swap_halves bytes h l =
    let e : length (swapped bytes) % 4 ≡ 0 = omega (arith, length-swapped bytes h) in
    let s = swap_halves-whole bytes h in
    (
      ap (λ x. x >>= times (length bytes / 4) u32_pdp) s ∙ times-u32_pdp bytes h l,
      ap (λ x. x >>= swap_halves) s
          ∙ swap_halves-whole (swapped bytes) e
          ∙ ap ok (swapped-swapped bytes h),
    )
