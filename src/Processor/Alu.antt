-- ===== src/Processor/Alu.antt =====
-- src/ttl.rs: the 33-bit ALU array and the control multiplexers of page ALUC4.
pub mod Compare
mod Examples
use muir.Base.{ℕ, ◌+◌, ◌-◌, ◌*◌, ◌/◌, ◌%◌, ◌^◌, bit_and, bit_or, bit_xor, List, [], ◌∷◌, Bool, true}
use muir.Base.{
  false, not, ◌&&◌, ◌||◌, ◌==◌, if◌then◌else◌, get_or, bit, of_bool, ◌<<<◌, ◌>>>◌, low_bits,
}

abbrev pub m33 : ℕ
m33 = 2 ^ 33 - 1

-- `!x` on a 64-bit word.
abbrev pub complement : ℕ → ℕ
complement x = 2 ^ 64 - 1 - x

pub record Alu : Type 0 where
  pub f : ℕ
  pub aeqm : Bool

-- The ninth slice: bit 32 repeats bit 31.
abbrev pub sign_extend : ℕ → ℕ
sign_extend m = low_bits (bit_or m ((m >>> 31) <<< 32)) 33

-- The sixteen logical functions, in the order of `aluf`.
unfoldable pub logic : ℕ → ℕ → ℕ → ℕ
logic aluf x y =
    get_or
      (complement x
        ∷ complement (bit_or x y)
        ∷ bit_and (complement x) y
        ∷ 0
        ∷ complement (bit_and x y)
        ∷ complement y
        ∷ bit_xor x y
        ∷ bit_and x (complement y)
        ∷ bit_or (complement x) y
        ∷ complement (bit_xor x y)
        ∷ y
        ∷ bit_and x y
        ∷ complement 0
        ∷ bit_or x (complement y)
        ∷ bit_or x y
        ∷ [])
      (low_bits aluf 4) x

-- The two addends of the sixteen arithmetic functions, in the order of `aluf`.
unfoldable pub addends : ℕ → ℕ → ℕ → ℕ × ℕ
addends aluf x y =
    get_or
      ((x, 0)
        ∷ (bit_or x y, 0)
        ∷ (bit_or x (complement y), 0)
        ∷ (m33, 0)
        ∷ (x, bit_and x (complement y))
        ∷ (bit_or x y, bit_and x (complement y))
        ∷ (x, complement y)
        ∷ (bit_and x (complement y), m33)
        ∷ (x, bit_and x y)
        ∷ (x, y)
        ∷ (bit_or x (complement y), bit_and x y)
        ∷ (bit_and x y, m33)
        ∷ (x, x)
        ∷ (bit_or x y, x)
        ∷ (bit_or x (complement y), x)
        ∷ [])
      (low_bits aluf 4) (x, m33)

-- `(p & M33).wrapping_add(q & M33).wrapping_add(cin)`
abbrev pub add33 : ℕ × ℕ → Bool → ℕ
add33 (p, q) cin = (low_bits p 33 + low_bits q 33 + of_bool cin) % 2 ^ 64

unfoldable pub alu : ℕ → ℕ → ℕ → Bool → Bool → Alu
unfolding logic addends
alu m a aluf alumode cin =
    let x = sign_extend m in
    let y = sign_extend a in
    let f = low_bits (if alumode then logic aluf x y else add33 (addends aluf x y) cin) 33 in
    record { f = f; aeqm = low_bits f 32 == 0xffff_ffff }

unfoldable pub alu_tag : ℕ → ℕ → ℕ → Bool → ℕ
unfolding alu
alu_tag m a aluf alumode =
    if alumode
    then low_bits (alu (low_bits (m >>> 32) 8) (low_bits (a >>> 32) 8) aluf true false).f 8 <<< 32
    else low_bits (m >>> 32) 8 <<< 32

pub record Control : Type 0 where
  pub aluf : ℕ
  pub alumode : Bool
  pub cin : Bool
  pub alusub : Bool
  pub aluadd : Bool

-- `(b(3) as u8) << 3 | (b(4) as u8) << 2 | (!b(6) as u8) << 1 | !b(5) as u8`
abbrev normal_aluf : ℕ → ℕ
normal_aluf ir =
    bit_or
      (bit_or (bit_or (of_bool (bit ir 3) <<< 3) (of_bool (bit ir 4) <<< 2))
        (of_bool (not (bit ir 6)) <<< 1))
      (of_bool (not (bit ir 5)))

-- The four columns of the multiplexers, on `alusub` and `aluadd`.
unfoldable pub column : ℕ → Bool → Bool → Bool → Control
column ir irjump false false = record {
  aluf = normal_aluf ir;
  alumode = not (bit ir 7);
  cin = bit ir 2;
  alusub = false;
  aluadd = false;
}
column ir irjump false true = record {
  aluf = 0b1001;
  alumode = false;
  cin = false;
  alusub = false;
  aluadd = true;
}
column ir irjump true false = record {
  aluf = 0b0110;
  alumode = false;
  cin = not irjump;
  alusub = true;
  aluadd = false;
}
column ir irjump true true = record {
  aluf = 0b1111;
  alumode = true;
  cin = true;
  alusub = true;
  aluadd = true;
}

unfoldable pub alu_control : ℕ → Bool → Bool → Bool → Bool → Control
unfolding column
alu_control ir q0 a31 iralu irjump =
    let specalu = bit ir 8 && iralu in
    let sel = bit_or (of_bool (bit ir 4) <<< 1) (of_bool (bit ir 3)) in
    let mul = specalu && sel == 0 in
    let div = specalu && sel == 1 in
    let divpos = q0 || bit ir 6 in
    let divsub = div && divpos in
    let divadd = div && (bit ir 5 || not divpos) in
    let mulnop = mul && not q0 in
    let aluadd = (divadd && not a31) || (divsub && a31) || mul in
    let alusub = mulnop || (divsub && not a31) || (divadd && a31) || irjump in
    column ir irjump alusub aluadd
