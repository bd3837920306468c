-- ===== src/Machine/Console/Examples.antt =====
-- The console's words at a few values.
use muir.Base.{◌≡◌, refl, true, false}
use muir.Machine.Console.{default_flag1, flag1_word, flag1_of, mode_of, write_debug_ir}

no_flags : flag1_of (flag1_word default_flag1) ≡ default_flag1
unfolding flag1_word flag1_of
no_flags = refl

fast_mode :
    ((mode_of 3).speed0 ≡ true) × ((mode_of 3).speed1 ≡ true) × ((mode_of 3).errstop ≡ false)
unfolding mode_of
fast_mode = (refl, refl, refl)

middle_half : write_debug_ir 0x1111_2222_3333 1 0xabcd ≡ 0x1111_abcd_3333
unfolding write_debug_ir
middle_half = refl
