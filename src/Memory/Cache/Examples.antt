-- ===== src/Memory/Cache/Examples.antt =====
-- Reads of QUUX's cache, and of a small one.
use muir.Base.{true, [], ◌∷◌, ◌≡◌, refl, arith, take}
use muir.Base.{none, some, get_or}
use muir.Memory.Cache.{CacheConfig, quux, check, not_powers}
use muir.Memory.Cache.Lru.{reads, reads-sets}

quux-checks : check quux ≡ none
unfolding check
quux-checks = refl

three_ways : check (record quux { ways = 3 }) ≡ some not_powers
unfolding check
three_ways = refl

abbrev small : CacheConfig
small = record { words = 16; line_words = 2; ways = 2; hit_ns = 20; write_buffer = true }

reads-sets_example : get_or (reads small (0 ∷ 8 ∷ 16 ∷ 1 ∷ [])).sets 0 [] ≡ take 2 (0 ∷ 4 ∷ 8 ∷ [])
reads-sets_example = reads-sets small (0 ∷ 8 ∷ 16 ∷ 1 ∷ []) 0 (omega arith)
