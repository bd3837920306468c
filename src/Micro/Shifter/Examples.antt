-- ===== src/Micro/Shifter/Examples.antt =====
-- The rotators, the maskers and the location counter's rotations at a few words.
use muir.Base.{◌≡◌, refl, arith, true, false}
use muir.Micro.Shifter.Selects.{lc_rotation-selects}
use muir.Micro.Shifter.{rol, rol40, mask32, mask40, merge, lc_rotation}

rotations : (rol 0x8000_0001 4 ≡ 0x18) × (rol 5 32 ≡ 5) × (rol40 0x80_0000_0001 44 ≡ 0x18)
unfolding rol rol40
rotations = (refl, refl, refl)

masks : (mask32 7 4 ≡ 0xf0) × (mask32 3 8 ≡ 0) × (mask40 32 7 ≡ 0xff_0000_0000) × (mask40 33 7 ≡ 0)
unfolding mask32 mask40
masks = (refl, refl, refl, refl)

merged : merge 0xf0 0xabcd 0x1234 ≡ 0x12c4
unfolding merge
merged = refl

-- The four bytes of a CADR's word.
byte_rotations :
    (lc_rotation false true 1 0 ≡ 0)
    × (lc_rotation false true 2 0 ≡ 8)
    × (lc_rotation false true 3 0 ≡ 16)
    × (lc_rotation false true 0 0 ≡ 24)
unfolding lc_rotation
byte_rotations = (refl, refl, refl, refl)

lc_rotation-selects_example : (lc_rotation false true 6 9 ≡ 1) × (lc_rotation false false 6 9 ≡ 9)
lc_rotation-selects_example = lc_rotation-selects 6 9 (omega arith)
