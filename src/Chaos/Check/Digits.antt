-- ===== src/Chaos/Check/Digits.antt =====
-- `bits_down` and `value` are inverse: sixteen cells of the cable carry a word exactly.
use muir.Base.{ℕ, zero, suc, ◌+◌, ◌*◌, ◌/◌, ◌%◌, ◌^◌, ◌≤◌, ◌<◌, List, [], ◌∷◌, Bool, true, false}
use muir.Base.{◌≡◌, refl, sym, ap, ap₂, ◌∙◌, arith, length, bit, of_bool, ◌==◌}
use muir.Base.Msb.{value, value-lt}
use native.Mathlib.Nat.{
  pow-suc, one-le-pow, mul-add-div_right, div-eq_of_lt, div-add-mod, mul-add-mod_self_right,
  mod-eq_of_lt, mod-lt,
}
use muir.Chaos.Check.{bits_down}

pub length-bits_down : (k w : ℕ) → length (bits_down k w) ≡ k
unfolding bits_down
length-bits_down zero w = refl
length-bits_down (suc k) w = ap suc (length-bits_down k w)

double : (k q v : ℕ) → q * 2 ^ suc k + v ≡ 2 * q * 2 ^ k + v
double k q v = omega (arith, ap (λ (t : ℕ). q * t) (pow-suc 2 k))

div_shift : (k q v : ℕ) → (q * 2 ^ k + v) / 2 ^ k ≡ q + v / 2 ^ k
div_shift k q v = mul-add-div_right (one-le-pow k 2 (omega arith)) q v

-- The bit above a multiple of the next power is that of the rest.
bit_above : (k q v : ℕ) → bit (q * 2 ^ suc k + v) k ≡ bit v k
bit_above k q v =
    ap (λ t. t % 2 == 1) (ap (λ t. t / 2 ^ k) (double k q v) ∙ div_shift k (2 * q) v)
    ∙ ap (λ t. t == 1) (omega arith)

-- Bits above the ones read do not matter.
bits_down_above : (k q v : ℕ) → bits_down k (q * 2 ^ k + v) ≡ bits_down k v
unfolding bits_down
bits_down_above zero q v = refl
bits_down_above (suc k) q v =
    ap₂ ◌∷◌ (bit_above k q v) (ap (bits_down k) (double k q v) ∙ bits_down_above k (2 * q) v)

bit_top : (k : ℕ) (b : Bool) (v : ℕ) → v < 2 ^ k → bit (of_bool b * 2 ^ k + v) k ≡ b
bit_top k true v h = ap (λ t. t % 2 == 1) (div_shift k 1 v ∙ ap (λ t. 1 + t) (div-eq_of_lt h))
bit_top k false v h = ap (λ t. t % 2 == 1) (div_shift k 0 v ∙ ap (λ t. 0 + t) (div-eq_of_lt h))

pub bits_down-value : (bs : List Bool) → bits_down (length bs) (value bs) ≡ bs
unfolding bits_down
bits_down-value [] = refl
bits_down-value (b ∷ bs) =
    ap₂ ◌∷◌ (bit_top (length bs) b (value bs) (value-lt bs))
      (bits_down_above (length bs) (of_bool b) (value bs) ∙ bits_down-value bs)

of_bool-bit : (w k : ℕ) → of_bool (bit w k) ≡ w / 2 ^ k % 2
of_bool-bit w k = ground arith

mod_top : (k w : ℕ) → w % 2 ^ suc k ≡ of_bool (bit w k) * 2 ^ k + w % 2 ^ k
mod_top k w =
    ap (λ t. t % 2 ^ suc k) whole
    ∙ mul-add-mod_self_right (w / 2 ^ k / 2) (2 ^ suc k) rest
    ∙ mod-eq_of_lt (omega (arith, pow-suc 2 k, below, ap (λ (t : ℕ). t * 2 ^ k) halves, top_le))
  where
    rest : ℕ
    rest = of_bool (bit w k) * 2 ^ k + w % 2 ^ k

    halves : w / 2 ^ k ≡ 2 * (w / 2 ^ k / 2) + of_bool (bit w k)
    halves = omega (arith, of_bool-bit w k)

    below : w % 2 ^ k < 2 ^ k
    below = mod-lt w (one-le-pow k 2 (omega arith))

    top_le : of_bool (bit w k) * 2 ^ k ≤ 2 ^ k
    top_le = ground arith

    whole : w ≡ w / 2 ^ k / 2 * 2 ^ suc k + rest
    whole = omega (
      arith,
      div-add-mod w (2 ^ k),
      ap (λ (t : ℕ). t * 2 ^ k) halves,
      ap (λ (t : ℕ). w / 2 ^ k / 2 * t) (pow-suc 2 k),
    )

pub value-bits_down : (k w : ℕ) → value (bits_down k w) ≡ w % 2 ^ k
unfolding bits_down
value-bits_down zero w = omega arith
value-bits_down (suc k) w =
    ap₂ (λ n v. of_bool (bit w k) * 2 ^ n + v) (length-bits_down k w) (value-bits_down k w)
    ∙ sym (mod_top k w)
