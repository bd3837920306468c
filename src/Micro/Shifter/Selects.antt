-- ===== src/Micro/Shifter/Selects.antt =====
-- The bytes that the location counter selects.
use muir.Base.{
  bit_xor, ℕ, zero, suc, ◌+◌, ◌*◌, ◌/◌, ◌%◌, ◌<◌, ◌≡◌, refl, ◌∙◌, arith, Bool, true, false, ◌&&◌,
  ◌==◌, ◌>>>◌, low_bits, ==_iff,
}
use muir.Micro.Shifter.{lc_rotation}

-- A test of every number below one.
unfoldable all_below : ℕ → (ℕ → Bool) → Bool
all_below zero p = true
all_below (suc n) p = p 0 && all_below n (λ i. p (suc i))

both : (a b : Bool) → (a && b) ≡ true → (a ≡ true) × (b ≡ true)
both a b e = ground arith

all_below-holds : (n : ℕ) (p : ℕ → Bool) (k : ℕ) → all_below n p ≡ true → k < n → p k ≡ true
unfolding all_below
all_below-holds zero p k e h = absurd (omega arith)
all_below-holds (suc n) p zero e h = (both (p 0) _ e).0
all_below-holds (suc n) p (suc k) e h =
    all_below-holds n (λ i. p (suc i)) k (both (p 0) _ e).1 (omega arith)

next_bit : (lc : ℕ) → low_bits (lc >>> 1) 1 ≡ low_bits ((lc % 4) >>> 1) 1
next_bit lc = omega arith

low_bit : (lc : ℕ) → low_bits lc 1 ≡ low_bits (lc % 4) 1
low_bit lc = omega arith

-- What is left of the counter in a rotation is its two low bits.
rotation-low :
    (b : Bool) (lc rotate : ℕ) → lc_rotation false b lc rotate ≡ lc_rotation false b (lc % 4) rotate
unfolding lc_rotation
rotation-low b lc rotate = rw (next_bit lc, low_bit lc) refl

unfoldable byte_test : ℕ → ℕ → Bool
byte_test l r = lc_rotation false true l r == r % 8 + 8 * bit_xor (r / 8) ((l + 3) % 4)

unfoldable halfword_test : ℕ → ℕ → Bool
halfword_test l r = lc_rotation false false l r == r % 16 + 16 * ((r / 16 + l / 2 + 1) % 2)

every_byte : all_below 4 (λ l. all_below 32 (byte_test l)) ≡ true
unfolding all_below byte_test lc_rotation
every_byte = refl

every_halfword : all_below 4 (λ l. all_below 32 (halfword_test l)) ≡ true
unfolding all_below halfword_test lc_rotation
every_halfword = refl

byte_at :
    (l r : ℕ)
    → l < 4
    → r < 32
    → lc_rotation false true l r ≡ r % 8 + 8 * bit_xor (r / 8) ((l + 3) % 4)
unfolding byte_test
byte_at l r hl hr =
    let row = all_below-holds 4 (λ i. all_below 32 (byte_test i)) l every_byte hl in
    (==_iff _ _).0 (all_below-holds 32 (byte_test l) r row hr)

halfword_at :
    (l r : ℕ)
    → l < 4
    → r < 32
    → lc_rotation false false l r ≡ r % 16 + 16 * ((r / 16 + l / 2 + 1) % 2)
unfolding halfword_test
halfword_at l r hl hr =
    let row = all_below-holds 4 (λ i. all_below 32 (halfword_test i)) l every_halfword hl in
    (==_iff _ _).0 (all_below-holds 32 (halfword_test l) r row hr)

-- What the location counter makes of a CADR's rotation, over every rotation of five bits and every
-- counter. In byte mode the rotation's byte number is XORed with that of the byte before the
-- counter, mod four; in halfword mode half a word is added, mod two, where the counter is in the
-- low halfword.
pub lc_rotation-selects :
    (lc rotate : ℕ)
    → rotate < 32
    → (lc_rotation false true lc rotate ≡ rotate % 8 + 8 * bit_xor (rotate / 8) ((lc % 4 + 3) % 4))
      × (lc_rotation false false lc rotate
          ≡ rotate % 16 + 16 * ((rotate / 16 + lc % 4 / 2 + 1) % 2))
lc_rotation-selects lc rotate h = (
  rotation-low true lc rotate ∙ byte_at (lc % 4) rotate (omega arith) h,
  rotation-low false lc rotate ∙ halfword_at (lc % 4) rotate (omega arith) h,
)
