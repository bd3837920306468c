-- ===== src/Video/Sync/Examples.antt =====
-- The last instruction of a sync program.
use muir.Base.{◌≡◌, refl}
use muir.Video.Sync.{special, end_of_program, cycle, video}

last_word : (special 0xe0 ≡ end_of_program) × (cycle 0xe0 ≡ video)
last_word = (refl, refl)
