-- ===== src/Base/Msb.antt =====
-- A number as its bits, most-significant bit first.
use Prim.Native.Nat.{ℕ, suc, ◌+◌, ◌*◌, ◌^◌, ◌<◌}
use mathlib.Core.Path.{◌≡◌, refl, ap}
use mathlib.Core.Bool.{Bool, true, false}
use mathlib.Core.List.{List, [], ◌∷◌, ◌++◌}
use native.Mathlib.Nat.{pow-suc}
use native.Mathlib.Omega.{arith}
use muir.Base.Test.{of_bool}
use muir.Base.Seq.{length, length-append}

abbrev pub value : List Bool → ℕ
value [] = 0
value (b ∷ bs) = of_bool b * 2 ^ length bs + value bs

pub value-lt : (bs : List Bool) → value bs < 2 ^ length bs
value-lt [] = omega arith
value-lt (true ∷ bs) = omega (arith, value-lt bs, pow-suc 2 (length bs))
value-lt (false ∷ bs) = omega (arith, value-lt bs, pow-suc 2 (length bs))

pow_length-snoc : (bs : List Bool) (b : Bool) → 2 ^ length (bs ++ (b ∷ [])) ≡ 2 ^ suc (length bs)
pow_length-snoc bs b = ap (λ n. 2 ^ n) (omega (arith, length-append {0} bs (b ∷ [])))

pub value-snoc : (bs : List Bool) (b : Bool) → value (bs ++ (b ∷ [])) ≡ 2 * value bs + of_bool b
value-snoc [] b = omega arith
value-snoc (true ∷ bs) b =
    omega (arith, value-snoc bs b, pow-suc 2 (length bs), pow_length-snoc bs b)
value-snoc (false ∷ bs) b = omega (arith, value-snoc bs b)

-- A list of bits that are all false.
abbrev pub AllFalse : List Bool → Type 0
AllFalse [] = Unit {0}
AllFalse (b ∷ bs) = (b ≡ false) × AllFalse bs

pub value-AllFalse : (bs : List Bool) → AllFalse bs → value bs ≡ 0
value-AllFalse [] h = refl
value-AllFalse (b ∷ bs) h = ground (arith, value-AllFalse bs h.1)

pub AllFalse-snoc : (bs : List Bool) → AllFalse bs → AllFalse (bs ++ (false ∷ []))
AllFalse-snoc [] h = (refl, tt)
AllFalse-snoc (b ∷ bs) h = (h.0, AllFalse-snoc bs h.1)
