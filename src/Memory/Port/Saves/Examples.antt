-- ===== src/Memory/Port/Saves/Examples.antt =====
-- The checkpoint of a port with a read granted and a word prefetched.
use muir.Base.{ℕ, ◌^◌, ◌≤◌, ◌≡◌, refl, arith, false, true, some, List, [], AllBelow}
use muir.Base.{length, length-replicate, All-replicate}
use muir.Checkpoint.{ok}
use muir.Checkpoint.Codec.{to_the_end, reader, writer}
use muir.Memory.Cache.Saves.{IsHeld as IsHeldCache}
use muir.Memory.Cache.{quux, new, check, sets_count}
use muir.Memory.Port.{MemoryPort, granted, for_geometry}
use muir.Memory.Port.Saves.{IsHeld, save, load, resume-save}

abbrev before : MemoryPort
before = for_geometry true

abbrev reading : MemoryPort
reading = record before {
  state = granted 700 600 false;
  addr = 0o1234;
  memory = true;
  cache = new quux;
  prefetched = some (record { vaddr = 0o1235; phys = 0o2235; word = 5 });
  fetch_vaddr = some 0o1236;
}

abbrev empty : List ℕ
empty = []

quux-IsHeld : IsHeldCache (new quux)
unfolding check
quux-IsHeld = record {
  words_fit = omega arith;
  line_words_fit = omega arith;
  ways_fit = omega arith;
  hit_ns_fits = omega arith;
  hits_fit = omega arith;
  misses_fit = omega arith;
  allowed = refl;
  sets_counted = length-replicate (sets_count quux) empty;
  sets_fit =
      All-replicate (λ s. (length s ≤ 2) × AllBelow (2 ^ 32) s) (sets_count quux) empty
        (omega arith, tt);
}

reading-IsHeld : IsHeld 5 28 reading
reading-IsHeld = record {
  state_fits = (omega arith, omega arith);
  addr_fits = omega arith;
  cache_held = quux-IsHeld;
  read_ns_fits = omega arith;
  write_ns_fits = omega arith;
  memory_free_at_fits = omega arith;
  buffer_free_at_fits = omega arith;
  prefetched_fits = (omega arith, omega arith, omega arith, omega arith);
  fetch_vaddr_fits = (omega arith, omega arith);
}

resume-save_example :
    to_the_end (load before) (reader 5 (save reading (writer 5 [])).out) ≡ ok (reading, reader 5 [])
resume-save_example = resume-save 5 reading before (omega arith) reading-IsHeld
