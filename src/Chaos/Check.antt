-- ===== src/Chaos/Check.antt =====
-- src/chaos/packet.rs, `check_word`: the check word of a packet, a bit at a time.
pub mod Digits
pub mod Residue
mod Examples
use muir.Base.{
  ℕ, zero, suc, ◌*◌, ◌/◌, ◌%◌, ◌^◌, bit_or, bit_xor, List, [], ◌∷◌, Bool, xor, ◌==◌, bit,
}
use muir.Base.{if◌then◌else◌, ◌<<<◌, low_bits}

-- The bits `k - 1` down to 0 of a word: `for k in (0..16).rev()` at 16.
unfoldable pub bits_down : ℕ → ℕ → List Bool
bits_down zero w = []
bits_down (suc k) w = bit w k ∷ bits_down k w

-- The feedback taps, `1 | 1 << 2 | 1 << 15`.
abbrev pub taps : ℕ
taps = bit_or (bit_or 1 (1 <<< 2)) (1 <<< 15)

-- One bit into the register.
unfoldable pub check_step : ℕ → Bool → ℕ
check_step r d =
    let next = low_bits (r <<< 1) 16 in if xor d (bit r 15) then bit_xor next taps else next

unfoldable pub check_bits : ℕ → List Bool → ℕ
unfolding check_step
check_bits r [] = r
check_bits r (d ∷ ds) = check_bits (check_step r d) ds

-- The sixteen bits of one word, most-significant first.
unfoldable pub check_next : ℕ → ℕ → ℕ
check_next r w = check_bits r (bits_down 16 w)

unfoldable pub check_from : ℕ → List ℕ → ℕ
check_from r [] = r
check_from r (w ∷ ws) = check_from (check_next r w) ws

unfoldable pub check_word : List ℕ → ℕ
check_word ws = low_bits (check_from 0 ws) 16
