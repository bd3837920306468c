-- ===== src/Processor/Muldiv/Multiply.antt =====
-- MUL multiplies: thirty-two multiply steps leave the double word of a product.
use muir.Base.{ℕ, zero, suc, ◌+◌, ◌*◌, ◌/◌, ◌%◌, ◌^◌, ◌≤◌, ◌<◌, ◌≡◌}
use native.Mathlib.Nat.{pow-suc}
use muir.Base.{refl, sym, subst, ap, ◌∙◌, arith, ◌⊎◌, inl, inr}
use muir.Base.Bits.{bit_or-disjoint}
use muir.Base.Int.{signed32, pos, pos_part, neg_part, ◌+ℤ◌, ◌*ℤ◌, +ℤ_parts, *ℤ_parts, eq_of_parts}
use muir.Processor.Alu.{alu, alu_control}
use muir.Processor.Alu.Compare.{sign_extend-eq}
use muir.Processor.Muldiv.{mus, step, mul_step, repeat, run, Pair, mul}

-- The array on a multiply step: M plus A if `Q<0>` is one, and M otherwise.
step-mus :
    (m a q : ℕ)
    → m < 2 ^ 32
    → a < 2 ^ 32
    → step mus m a q ≡ (m + m / 2 ^ 31 * 2 ^ 32 + q % 2 * (a + a / 2 ^ 31 * 2 ^ 32)) % 2 ^ 33
unfolding step alu_control alu
step-mus m a q hm ha = ground (arith, sign_extend-eq m hm, sign_extend-eq a ha)

abbrev sign : ℕ → ℕ
sign w = w / 2 ^ 31

parity : (q : ℕ) → (q % 2 ≡ 0) ⊎ (q % 2 ≡ 1)
parity q = ground arith

-- The step as arithmetic on the array's output.
mul_step-eq :
    (a m q : ℕ)
    → q < 2 ^ 32
    → let f = step mus m a q in mul_step a (m, q) ≡ (f / 2 % 2 ^ 32, f % 2 * 2 ^ 31 + q / 2)
unfolding mul_step
mul_step-eq a m q hq =
    let f = step mus m a q in
    ap (λ (x : ℕ). (f / 2 % 2 ^ 32, x))
      (bit_or-disjoint 31 (f % 2 ^ 32 % 2 ^ 1) (q / 2 ^ 1) (omega arith) ∙ omega arith)

-- Twice the double word after a step is the double word before it, and, if `Q<0>` was one, the
-- multiplicand in its high word in place of that one. Signs are carried to the other side.
halve-double :
    (a m q f : ℕ)
    → m < 2 ^ 32
    → a < 2 ^ 32
    → f ≡ (m + sign m * 2 ^ 32 + q % 2 * (a + sign a * 2 ^ 32)) % 2 ^ 33
    → 2 * (f / 2 % 2 ^ 32 * 2 ^ 32 + (f % 2 * 2 ^ 31 + q / 2))
        + sign m * 2 ^ 64
        + q % 2 * (sign a * 2 ^ 64 + 1)
      ≡ m * 2 ^ 32 + q + q % 2 * (a * 2 ^ 32) + 2 * (sign (f / 2 % 2 ^ 32) * 2 ^ 64)
halve-double a m q f hm ha e = elim (parity q) [
  | inl even ↦ omega (
    arith,
    ap (λ (t : ℕ). t * (a + sign a * 2 ^ 32)) even,
    ap (λ (t : ℕ). t * (sign a * 2 ^ 64 + 1)) even,
    ap (λ (t : ℕ). t * (a * 2 ^ 32)) even,
  )
  | inr odd ↦ omega (
    arith,
    ap (λ (t : ℕ). t * (a + sign a * 2 ^ 32)) odd,
    ap (λ (t : ℕ). t * (sign a * 2 ^ 64 + 1)) odd,
    ap (λ (t : ℕ). t * (a * 2 ^ 32)) odd,
  )
]

-- The `n` low bits of a number, digit by digit.
abbrev low : ℕ → ℕ → ℕ
low zero q = 0
low (suc n) q = q % 2 + 2 * low n (q / 2)

low_self : (n q : ℕ) → q < 2 ^ n → low n q ≡ q
low_self zero q h = omega arith
low_self (suc n) q h = omega (arith, low_self n (q / 2) (omega (arith, pow-suc 2 n)))

halved : (j b x : ℕ) → (b * 2 ^ suc j + x) / 2 ≡ b * 2 ^ j + x / 2
halved j b x = omega (arith, ap (λ (t : ℕ). b * t) (pow-suc 2 j))

low_under : (n j b x : ℕ) → n ≤ j → low n (b * 2 ^ j + x) ≡ low n x
low_under zero j b x h = refl
low_under (suc n) zero b x h = absurd (omega arith)
low_under (suc n) (suc j) b x h =
    omega (arith, halves, ap (low n) (halved j b x), low_under n j b (x / 2) (omega arith))
  where
    halves : (b * 2 ^ suc j + x) % 2 ≡ x % 2
    halves = omega (arith, ap (λ (t : ℕ). b * t) (pow-suc 2 j))

-- After `n` steps, as `mul_step-double` has it of one: the multiplicand is added once for each
-- unit of the multiplier's `n` low bits.
record Multiplied (a m q n : ℕ) (s : Pair) : Type 0 where
  hi_fits : s.0 < 2 ^ 32
  lo_fits : s.1 < 2 ^ 32
  sum :
      2 ^ n * (s.0 * 2 ^ 32 + s.1) + sign m * 2 ^ 64 + low n q * (sign a * 2 ^ 64 + 1)
      ≡ m * 2 ^ 32 + q + low n q * (a * 2 ^ 32) + 2 ^ n * (sign s.0 * 2 ^ 64)

-- One step before `n` others.
Multiplied-suc :
    (n a m q : ℕ) (s : Pair)
    → n < 32
    → m < 2 ^ 32
    → a < 2 ^ 32
    → let f = step mus m a q in
      Multiplied a (f / 2 % 2 ^ 32) (f % 2 * 2 ^ 31 + q / 2) n s → Multiplied a m q (suc n) s
Multiplied-suc n a m q s hn hm ha rest = record {
  hi_fits = rest.hi_fits;
  lo_fits = rest.lo_fits;
  sum = omega (
    arith,
    rest.sum,
    halve-double a m q f hm ha (step-mus m a q hm ha),
    ap (λ (t : ℕ). t * (s.0 * 2 ^ 32 + s.1)) (pow-suc 2 n),
    ap (λ (t : ℕ). t * (sign s.0 * 2 ^ 64)) (pow-suc 2 n),
    ap (λ (t : ℕ). t * (sign a * 2 ^ 64 + 1)) under,
    ap (λ (t : ℕ). t * (a * 2 ^ 32)) under,
  );
}
  where
    f : ℕ
    f = step mus m a q

    under : low n (f % 2 * 2 ^ 31 + q / 2) ≡ low n (q / 2)
    under = low_under n 31 (f % 2) (q / 2) (omega arith)

repeat-Multiplied :
    (n a m q : ℕ)
    → n ≤ 32
    → m < 2 ^ 32
    → a < 2 ^ 32
    → q < 2 ^ 32
    → Multiplied a m q n (repeat n (mul_step a) (m, q))
unfolding repeat
repeat-Multiplied zero a m q hn hm ha hq = record { hi_fits = hm; lo_fits = hq; sum = omega arith }
repeat-Multiplied (suc n) a m q hn hm ha hq =
    let f = step mus m a q in
    subst (λ s. Multiplied a m q (suc n) (repeat n (mul_step a) s)) (sym (mul_step-eq a m q hq))
      (Multiplied-suc n a m q (repeat n (mul_step a) (f / 2 % 2 ^ 32, f % 2 * 2 ^ 31 + q / 2)) hn hm
        ha
        (repeat-Multiplied n a (f / 2 % 2 ^ 32) (f % 2 * 2 ^ 31 + q / 2) (omega arith) (omega arith)
          ha (omega arith)))

signed32_parts :
    (w : ℕ) → w < 2 ^ 32 → pos_part (signed32 w) + sign w * 2 ^ 32 ≡ neg_part (signed32 w) + w
signed32_parts w h = ground arith

-- The product's equation in integers, from the one in natural numbers.
signed_product :
    (hi lo m a q : ℕ)
    → hi < 2 ^ 32
    → m < 2 ^ 32
    → a < 2 ^ 32
    → 2 ^ 32 * (hi * 2 ^ 32 + lo) + sign m * 2 ^ 64 + q * (sign a * 2 ^ 64 + 1)
      ≡ m * 2 ^ 32 + q + q * (a * 2 ^ 32) + 2 ^ 32 * (sign hi * 2 ^ 64)
    → signed32 hi *ℤ pos (2 ^ 32) +ℤ pos lo ≡ signed32 m +ℤ signed32 a *ℤ pos q
signed_product hi lo m a q hh hm ha e = eq_of_parts _ _ (
    omega (
      arith,
      e,
      +ℤ_parts (signed32 hi *ℤ pos (2 ^ 32)) (pos lo),
      *ℤ_parts (signed32 hi) (pos (2 ^ 32)),
      +ℤ_parts (signed32 m) (signed32 a *ℤ pos q),
      *ℤ_parts (signed32 a) (pos q),
      signed32_parts hi hh,
      signed32_parts m hm,
      ap (λ (t : ℕ). t * q) (signed32_parts a ha),
    ))

-- MUL leaves in the output bus and `Q`, high word signed and low word unsigned, the signed M
-- source plus the product of the signed A source and the unsigned multiplier in `Q`.
pub run-mul :
    (m a q : ℕ)
    → m < 2 ^ 32
    → a < 2 ^ 32
    → q < 2 ^ 32
    → let s = run mul m a q in
      (s.0 < 2 ^ 32)
      × (s.1 < 2 ^ 32)
      × (signed32 s.0 *ℤ pos (2 ^ 32) +ℤ pos s.1 ≡ signed32 m +ℤ signed32 a *ℤ pos q)
unfolding run
run-mul m a q hm ha hq =
    let s = repeat 32 (mul_step a) (m, q) in
    let r = repeat-Multiplied 32 a m q (omega arith) hm ha hq in
    let whole = low_self 32 q hq in
    (
      r.hi_fits,
      r.lo_fits,
      signed_product s.0 s.1 m a q r.hi_fits hm ha (
          omega (
            arith,
            r.sum,
            ap (λ (t : ℕ). t * (sign a * 2 ^ 64 + 1)) whole,
            ap (λ (t : ℕ). t * (a * 2 ^ 32)) whole,
          )),
    )
