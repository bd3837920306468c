-- ===== src/Microcode/Prom/Burned.antt =====
-- A word as it is burned: odd parity, and the microinstruction back.
use muir.Base.{ℕ, zero, suc, ◌+◌, ◌-◌, ◌*◌, ◌/◌, ◌%◌, ◌^◌, ◌<◌, ◌≡◌, refl, ap, ap₂, ◌∙◌, arith}
use muir.Base.{List, [], ◌∷◌, All, map, bit, false}
use muir.Base.Bits.{bit_or-disjoint, bit_or-disjoint_low}
use native.Mathlib.Nat.{pow-suc, mod-lt}
use muir.Processor.Isa.{Insn}
use muir.Microcode.Prom.{count_ones, burned_low, programming, unprogramming}

-- What a burned word has somewhere to hold: 48 bits, the statistics bit off.
abbrev pub Burnable : Insn → Type 0
Burnable i = (i.raw < 2 ^ 48) × (bit i.raw 46 ≡ false)

burned_low-sum : (i : Insn) → burned_low i ≡ i.raw / 2 ^ 47 % 2 * 2 ^ 46 + i.raw % 2 ^ 46
unfolding burned_low
burned_low-sum i =
    bit_or-disjoint_low 46 (i.raw % 2 ^ 46) (i.raw / 2 ^ 47 % 2) (mod-lt i.raw (omega arith))

programming-sum :
    (i : Insn) → programming i ≡ (1 - count_ones 64 (burned_low i) % 2) * 2 ^ 47 + burned_low i
unfolding programming
programming-sum i =
    bit_or-disjoint 47 (1 - count_ones 64 (burned_low i) % 2) (burned_low i)
      (omega (arith, burned_low-sum i))

-- A burnable microinstruction is read back from its burned word.
pub unprogramming-programming : (i : Insn) → Burnable i → unprogramming (programming i) ≡ i
unfolding unprogramming
unprogramming-programming i h =
    let w = programming i in
    let off = h.1 in
    let fits = h.0 in
    let clear : i.raw / 2 ^ 46 % 2 ≡ 0 = ground arith in
    let low = burned_low-sum i in
    let sum = programming-sum i in
    let ir47 : w / 2 ^ 46 % 2 ≡ i.raw / 2 ^ 47 % 2 = omega arith in
    let rest : w % 2 ^ 46 ≡ i.raw % 2 ^ 46 = omega arith in
    let small : w % 2 ^ 46 < 2 ^ 46 = mod-lt w (omega arith) in
    let joined = bit_or-disjoint 47 (w / 2 ^ 46 % 2) (w % 2 ^ 46) (omega (arith, small)) in
    ap (λ v. record { raw = v }) (omega arith)

-- A program of burnable words, burned and read back, is the program.
pub unprogramming-image :
    (v : List Insn) → All Burnable v → map unprogramming (map programming v) ≡ v
unprogramming-image [] h = refl
unprogramming-image (i ∷ v) h =
    ap₂ ◌∷◌ (unprogramming-programming i h.0) (unprogramming-image v h.1)

count_ones-split :
    (k j p low : ℕ)
    → low < 2 ^ k
    → count_ones (k + j) (p * 2 ^ k + low) ≡ count_ones k low + count_ones j p
unfolding count_ones
count_ones-split zero j p low b =
    let e : 0 + j ≡ j = omega arith in
    let v : p * 2 ^ 0 + low ≡ p = omega arith in ap₂ count_ones e v ∙ omega arith
count_ones-split (suc k) j p low b =
    let e : suc k + j ≡ suc (k + j) = omega arith in
    let s = pow-suc 2 k in
    let scale : p * 2 ^ suc k ≡ p * (2 ^ k * 2) = ap (λ t. p * t) s in
    let half : (p * 2 ^ suc k + low) / 2 ≡ p * 2 ^ k + low / 2 = omega arith in
    let odd : (p * 2 ^ suc k + low) % 2 ≡ low % 2 = omega arith in
    ap (λ n. count_ones n (p * 2 ^ suc k + low)) e
    ∙ ap₂ (λ x y. x + count_ones (k + j) y) odd half
    ∙ omega (arith, count_ones-split k j p (low / 2) (omega arith))

count_ones-bit : (p : ℕ) → p < 2 → count_ones 17 p ≡ p
unfolding count_ones
count_ones-bit zero h = omega arith
count_ones-bit (suc zero) h = omega arith
count_ones-bit (suc (suc p)) h = absurd (omega arith)

-- A burned word has odd parity.
pub programming-odd : (i : Insn) → count_ones 64 (programming i) % 2 ≡ 1
programming-odd i =
    let low = burned_low i in
    let p = 1 - count_ones 64 low % 2 in
    let fits : low < 2 ^ 47 = omega (arith, burned_low-sum i) in
    let alone : count_ones 64 low ≡ count_ones 47 low + count_ones 17 0 =
      ap (count_ones 64) {x = low} {y = 0 * 2 ^ 47 + low} (omega arith)
      ∙ count_ones-split 47 17 0 low fits in
    let whole : count_ones 64 (p * 2 ^ 47 + low) ≡ count_ones 47 low + count_ones 17 p =
      count_ones-split 47 17 p low fits in
    let eq = ap (count_ones 64) (programming-sum i) in
    omega (arith, count_ones-bit p (omega arith), count_ones-bit 0 (omega arith))
