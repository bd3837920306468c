-- ===== src/Memory/Cache/Saves.antt =====
-- src/cache.rs: the cache into a checkpoint, and back.
use muir.Base.{ℕ, ◌^◌, ◌≤◌, ◌<◌, ◌≡◌, ap, subst, false, Option}
use muir.Base.{none, some, List, All, AllBelow, arith, length, ltb, if◌then◌else◌}
use muir.Checkpoint.{bad_cache_config, bad_set}
use muir.Checkpoint.Writer.{Put, ◌>>◌}
use muir.Checkpoint.Writer
use muir.Checkpoint.Reader.{Get, ◌>>=◌, pure, fail}
use muir.Checkpoint.Reader
use muir.Checkpoint.Codec.{Saves, Saves-seq, Saves-here, Saves-pure, reader}
use muir.Checkpoint.Codec.Fields.{Saves-bool, Saves-u32, Saves-u64}
use muir.Checkpoint.Codec.Sequences.{Saves-All, Saves-each}
use muir.Memory.Cache.{CacheConfig, Cache, Refusal, check, sets_count}

-- One set: its length and its lines.
abbrev put_set : List ℕ → Put
put_set s = do Writer.u32 (length s); Writer.each Writer.u32 s

abbrev put_config : CacheConfig → Put
put_config c = do
  Writer.u32 c.words
  Writer.u32 c.line_words
  Writer.u32 c.ways
  Writer.u64 c.hit_ns
  Writer.bool c.write_buffer

unfoldable pub save : Cache → Put
save c = do put_config c.config; Writer.u64 c.hits; Writer.u64 c.misses; Writer.each put_set c.sets

abbrev refused : Option Refusal → Get (Unit {0})
refused none = pure tt
refused (some e) = fail bad_cache_config

abbrev lines : ℕ → ℕ → Get (List ℕ)
lines ways n = if ltb ways n then fail (bad_set n) else Reader.times n Reader.u32

abbrev get_set : ℕ → Get (List ℕ)
get_set ways = Reader.u32 >>= lines ways

abbrev get_config : Get CacheConfig
get_config = do
  words ← Reader.u32
  line_words ← Reader.u32
  ways ← Reader.u32
  hit_ns ← Reader.u64
  write_buffer ← Reader.bool
  pure (record {
    words = words;
    line_words = line_words;
    ways = ways;
    hit_ns = hit_ns;
    write_buffer = write_buffer;
  })

unfoldable pub load : Get Cache
load = do
  config ← get_config
  _ ← refused (check config)
  hits ← Reader.u64
  misses ← Reader.u64
  sets ← Reader.times (sets_count config) (get_set config.ways)
  pure (record { config = config; sets = sets; hits = hits; misses = misses })

-- A cache that its configuration allows: as many sets as it has, none longer than its ways.
pub record IsHeld (c : Cache) : Type 0 where
  pub words_fit : c.config.words < 2 ^ 32
  pub line_words_fit : c.config.line_words < 2 ^ 32
  pub ways_fit : c.config.ways < 2 ^ 32
  pub hit_ns_fits : c.config.hit_ns < 2 ^ 64
  pub hits_fit : c.hits < 2 ^ 64
  pub misses_fit : c.misses < 2 ^ 64
  pub allowed : check c.config ≡ none
  pub sets_counted : length c.sets ≡ sets_count c.config
  pub sets_fit : All (λ s. (length s ≤ c.config.ways) × AllBelow (2 ^ 32) s) c.sets

module _ (n : ℕ) where
  Saves-lines :
      (ways : ℕ) (s : List ℕ)
      → length s ≤ ways
      → AllBelow (2 ^ 32) s
      → Saves n (Writer.each Writer.u32 s) (lines ways (length s)) s
  Saves-lines ways s h b =
      let few : ltb ways (length s) ≡ false = ground arith in
      rw few (Saves-each n (2 ^ 32) (Saves-u32 n) s b)

  Saves-set :
      (ways : ℕ)
      → ways < 2 ^ 32
      → (s : List ℕ) → (length s ≤ ways) × AllBelow (2 ^ 32) s
      → Saves n (put_set s) (get_set ways) s
  Saves-set ways w s h =
      Saves-seq (lines ways) (Saves-u32 n (length s) (ground arith)) (Saves-lines ways s h.0 h.1)

  Saves-sets :
      (c : Cache)
      → IsHeld c
      → Saves n
          (Writer.each put_set c.sets)
          (Reader.times (sets_count c.config) (get_set c.config.ways))
          c.sets
  Saves-sets c h =
      subst
        (λ k. Saves n (Writer.each put_set c.sets) (Reader.times k (get_set c.config.ways)) c.sets)
        h.sets_counted (Saves-All n _ (Saves-set c.config.ways h.ways_fit) c.sets h.sets_fit)

  Saves-config : (c : Cache) → IsHeld c → Saves n (put_config c.config) get_config c.config
  Saves-config c h = Saves-seq _ (Saves-u32 n c.config.words h.words_fit) (
      Saves-seq _ (Saves-u32 n c.config.line_words h.line_words_fit) (
        Saves-seq _ (Saves-u32 n c.config.ways h.ways_fit) (
          Saves-seq _ (Saves-u64 n c.config.hit_ns h.hit_ns_fits)
            (Saves-seq _ (Saves-bool n c.config.write_buffer) (Saves-pure c.config)))))

  Saves-refused :
      (c : Cache) → check c.config ≡ none → Saves n (λ w. w) (refused (check c.config)) tt
  Saves-refused c e = Saves-here (λ tail. ap (λ o. refused o (reader n tail)) e)

  -- The checkpoint of a cache that its configuration allows is loaded as the same cache, the
  -- sets' order and the counts included.
  pub load-save : (c : Cache) → IsHeld c → Saves n (save c) load c
  unfolding save load
  load-save c h = Saves-seq _ (Saves-config c h) (
      Saves-seq {g = refused (check c.config)} _ (Saves-refused c h.allowed) (
        Saves-seq _ (Saves-u64 n c.hits h.hits_fit) (
          Saves-seq _ (Saves-u64 n c.misses h.misses_fit)
            (Saves-seq _ (Saves-sets c h) (Saves-pure c)))))
