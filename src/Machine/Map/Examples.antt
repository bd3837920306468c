-- ===== src/Machine/Map/Examples.antt =====
-- A page mapped on each machine, in memories of zeros.
use muir.Base.{◌+◌, ◌*◌, ◌^◌, true, false, ◌≡◌, refl, arith}
use muir.Machine.Geometry.{cadr, wide}
use muir.Machine.Map.{Maps, translate, write_map, translate_13, write_map_13}
use muir.Machine.Map.Cadr.{translate-write_level_2}
use muir.Machine.Map.Revision13.{translate_13-write_level_2}

abbrev zeros : Maps
zeros = record { l1_map = λ i. 0; l2_map = λ i. 0 }

translate-write_level_2_example :
    let t = translate cadr (write_map cadr zeros (2 ^ 25 + 2 ^ 23 + 5) 0x1234) 0x12ff in
    (t.physical ≡ 5 * 256 + 0xff) × (t.write_permitted ≡ false) × (t.access_permitted ≡ true)
unfolding wide
translate-write_level_2_example =
    translate-write_level_2 cadr zeros (2 ^ 25 + 2 ^ 23 + 5) 0x1234 0x12ff refl (omega arith)
      (omega arith) refl refl (omega arith)

translate_13-write_level_2_example :
    let t = translate_13 (write_map_13 zeros (2 ^ 28 + 2 ^ 27 + 9) 0x1234) 0x13ff in
    (t.physical ≡ 9 * 1024 + 0x3ff) × (t.write_permitted ≡ false) × (t.access_permitted ≡ true)
translate_13-write_level_2_example =
    translate_13-write_level_2 zeros (2 ^ 28 + 2 ^ 27 + 9) 0x1234 0x13ff (omega arith) refl refl
      (omega arith)
