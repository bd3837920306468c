-- ===== src/Processor/Muldiv.antt =====
-- src/muldiv.rs: QUUX's one-instruction multiply and divide, as the steps that each runs.
pub mod Multiply
mod Examples
use muir.Base.{
  ℕ, zero, suc, ◌+◌, ◌-◌, ◌*◌, ◌/◌, ◌%◌, ◌^◌, bit_or, Bool, true, false, ◌&&◌, ◌==◌, Option,
}
use muir.Base.{some, none, if◌then◌else◌, bit, ◌<<<◌, ◌>>>◌, low_bits}
use muir.Processor.Alu.{alu, alu_control}

pub data Op : Type 0 where
  mul : Op
  div : Op

abbrev pub mus : ℕ
mus = 0o40 <<< 3

abbrev pub dvs : ℕ
dvs = 0o41 <<< 3

abbrev pub dvs1 : ℕ
dvs1 = 0o51 <<< 3

unfoldable pub decode : ℕ → Option Op
decode ir =
    let specalu = low_bits (ir >>> 43) 2 == 0 && bit ir 8 in
    let sel = low_bits (ir >>> 3) 2 in
    if specalu && sel == 2 then some mul else if specalu && sel == 3 then some div else none

-- The output bus and `Q`.
abbrev pub Pair : Type 0
Pair = ℕ × ℕ

unfoldable pub step : ℕ → ℕ → ℕ → ℕ → ℕ
step code m a q =
    let ctl = alu_control code (bit q 0) (bit a 31) true false in
    (alu m a ctl.aluf ctl.alumode ctl.cin).f

unfoldable pub mul_step : ℕ → Pair → Pair
mul_step a (m, q) =
    let f = step mus m a q in
    (low_bits (f >>> 1) 32, bit_or (low_bits (low_bits f 32) 1 <<< 31) (q >>> 1))

-- `!alu >> 31` on a 32-bit word.
abbrev pub not_sign : ℕ → ℕ
not_sign f = (2 ^ 32 - 1 - f) >>> 31

unfoldable pub div_step : ℕ → ℕ → Pair → Pair
div_step code a (m, q) =
    let f = low_bits (step code m a q) 32 in
    (bit_or (low_bits (f <<< 1) 32) (q >>> 31), bit_or (low_bits (q <<< 1) 32) (not_sign f))

-- `(0..n).fold(s, |s, _| f(s))`
unfoldable pub repeat {ℓ} : {S : Type ℓ} → ℕ → (S → S) → S → S
repeat zero f s = s
repeat (suc n) f s = repeat n f (f s)

unfoldable pub run : Op → ℕ → ℕ → ℕ → Pair
run mul m a q = repeat 32 (mul_step a) (m, q)
run div m a q = repeat 31 (div_step dvs a) (div_step dvs1 a (m, q))
