-- ===== src/Micro/Shifter.antt =====
-- src/micro.rs: the rotators, the maskers, and the location counter's part of a rotation.
pub mod Selects
mod Examples
use muir.Base.{ℕ, ◌+◌, ◌-◌, ◌*◌, ◌/◌, ◌%◌, ◌^◌, bit_and, bit_or, bit_xor, Bool, ltb, ◌==◌, bit}
use muir.Base.{if◌then◌else◌, List, [], ◌∷◌, get_or, ◌<<<◌, ◌>>>◌, low_bits}

abbrev pub ones32 : ℕ
ones32 = 2 ^ 32 - 1

-- `v.rotate_left(n & 31)` on a 32-bit word.
unfoldable pub rol : ℕ → ℕ → ℕ
rol v n = let k = low_bits n 5 in bit_or (low_bits (v <<< k) 32) (v >>> (32 - k))

-- The shift left is of a 64-bit word, and loses nothing of the 40 bits that are kept.
unfoldable pub rol40 : ℕ → ℕ → ℕ
rol40 word n =
    let v = low_bits word 40 in
    let k = n % 40 in
    if k == 0 then v else low_bits (bit_or (low_bits (v <<< k) 64) (v >>> (40 - k))) 40

unfoldable pub mask40 : ℕ → ℕ → ℕ
mask40 right n = if ltb 39 (right + n) then 0 else ((1 <<< (n + 1)) - 1) <<< right

-- `(!0u32 >> (31 - left)) & (!0u32 << right)`
unfoldable pub mask32 : ℕ → ℕ → ℕ
mask32 left right = bit_and (ones32 >>> (31 - left)) (low_bits (ones32 <<< right) 32)

-- `(m & mask) | (a & !mask)` on 64-bit words.
unfoldable pub merge : ℕ → ℕ → ℕ → ℕ
merge mask m a = bit_or (bit_and m mask) (bit_and a (2 ^ 64 - 1 - mask))

-- What a wide machine adds to a rotation.
abbrev pub wide_add : Bool → ℕ → ℕ
wide_add byte_mode lc =
    if byte_mode
    then get_or (16 ∷ 0 ∷ 32 ∷ 24 ∷ []) (low_bits lc 2) 0
    else if bit lc 1
    then 0
    else 24

unfoldable pub lc_rotation : Bool → Bool → ℕ → ℕ → ℕ
lc_rotation wide byte_mode lc rotate =
    let ir4 = low_bits (rotate >>> 4) 1 in
    let ir3 = low_bits (rotate >>> 3) 1 in
    let lc1 = low_bits (lc >>> 1) 1 in
    let lc0 = low_bits lc 1 in
    if wide
    then (rotate + wide_add byte_mode lc) % 40
    else if byte_mode
    then bit_or (bit_or (low_bits rotate 3) (bit_xor (bit_xor (bit_xor ir4 lc1) lc0) 1 <<< 4))
        (bit_xor (bit_xor ir3 lc0) 1 <<< 3)
    else bit_or (low_bits rotate 4) (bit_xor (bit_xor ir4 lc1) 1 <<< 4)
