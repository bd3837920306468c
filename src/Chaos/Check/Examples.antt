-- ===== src/Chaos/Check/Examples.antt =====
-- The check word of two words.
use muir.Base.{[], ◌∷◌, ◌++◌, ◌≡◌}
use muir.Chaos.Check.{check_word}
use muir.Chaos.Check.Residue.{check_word_residue}

check_word_residue_example :
    check_word ((0o3060 ∷ 0o3050 ∷ []) ++ (check_word (0o3060 ∷ 0o3050 ∷ []) ∷ [])) ≡ 0
check_word_residue_example = check_word_residue (0o3060 ∷ 0o3050 ∷ [])
