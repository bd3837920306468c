-- ===== src/Machine/Geometry/Examples.antt =====
-- The revisions by what they answer.
use muir.Base.{true, false, ◌≡◌, refl, some, none}
use muir.Machine.Geometry.{cadr, quux, quux_11, quux_13, revision, wide}

revisions :
    (revision cadr ≡ none)
    × (revision quux_11 ≡ some 11)
    × (revision quux ≡ some 12)
    × (revision quux_13 ≡ some 13)
unfolding revision
revisions = (refl, refl, refl, refl)

only_13_wide : (wide cadr ≡ false) × (wide quux ≡ false) × (wide quux_13 ≡ true)
unfolding wide
only_13_wide = (refl, refl, refl)
