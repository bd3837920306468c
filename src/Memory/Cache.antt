-- ===== src/Memory/Cache.antt =====
-- src/cache.rs: the tags of QUUX's memory cache, least recently used within a set.
pub mod Lru
pub mod Hits
pub mod Saves
mod Examples
use muir.Base.{
  ℕ, zero, suc, ◌*◌, ◌/◌, ◌%◌, ◌^◌, ltb, ◌==◌, Bool, true, false, not, ◌||◌, if◌then◌else◌,
}
use muir.Base.{Option, some, none, List, [], ◌∷◌, ◌+◌, take, set, get_or, replicate}

pub record CacheConfig : Type 0 where
  pub words : ℕ
  pub line_words : ℕ
  pub ways : ℕ
  pub hit_ns : ℕ
  pub write_buffer : Bool

-- `CacheConfig::with_words`
abbrev pub with_words : ℕ → CacheConfig
with_words words = record {
  words = words;
  line_words = 4;
  ways = 2;
  hit_ns = 20;
  write_buffer = true;
}

abbrev pub quux : CacheConfig
quux = with_words 4096

-- Whether `n` is one of the first `k` powers of two.
abbrev pub below_power : ℕ → ℕ → Bool
below_power zero n = false
below_power (suc k) n = (n == 2 ^ k) || below_power k n

-- `u32::is_power_of_two`
abbrev pub is_power_of_two : ℕ → Bool
is_power_of_two n = below_power 32 n

pub data Refusal : Type 0 where
  not_powers fewer_words : Refusal

-- `CacheConfig::check`, the error's text left out. The product is a 32-bit one.
unfoldable pub check : CacheConfig → Option Refusal
check c =
    if not (is_power_of_two c.words)
      || not (is_power_of_two c.line_words)
      || not (is_power_of_two c.ways)
    then some not_powers
    else if ltb c.words (c.line_words * c.ways % 2 ^ 32)
    then some fewer_words
    else none

abbrev pub sets_count : CacheConfig → ℕ
sets_count c = c.words / c.line_words / c.ways

pub record Cache : Type 0 where
  pub config : CacheConfig
  pub sets : List (List ℕ)
  pub hits : ℕ
  pub misses : ℕ

abbrev pub new : CacheConfig → Cache
new config = record {
  config = config;
  sets = replicate (sets_count config) [];
  hits = 0;
  misses = 0;
}

abbrev pub line_of : CacheConfig → ℕ → ℕ
line_of c phys = phys / c.line_words

abbrev pub set_of : CacheConfig → ℕ → ℕ
set_of c line = line % sets_count c

-- `s.iter().position(|&l| l == line)`
abbrev pub position : ℕ → List ℕ → Option ℕ
position line [] = none
position line (l ∷ s) =
    if l == line then some 0 else elim (position line s) [ none ↦ none | some k ↦ some (suc k) ]

-- `Vec::remove`, what is left.
abbrev pub remove : ℕ → List ℕ → List ℕ
remove k [] = []
remove zero (l ∷ s) = s
remove (suc k) (l ∷ s) = l ∷ remove k s

abbrev pub contains : List ℕ → ℕ → Bool
contains [] line = false
contains (l ∷ s) line = (l == line) || contains s line

-- One set after a read of a line: the line to the front, or in at the front and the set cut.
unfoldable pub touch : ℕ → ℕ → List ℕ → List ℕ
touch ways line s = elim (position line s) [
  | some k ↦ line ∷ remove k s
  | none ↦ take ways (line ∷ s)
]

unfoldable pub read : Cache → ℕ → Bool × Cache
unfolding touch
read c phys =
    let line = line_of c.config phys in
    let i = set_of c.config line in
    let s = get_or c.sets i [] in
    elim (position line s) [
      | some k ↦
          (true, record c { sets = set c.sets i (touch c.config.ways line s); hits = c.hits + 1 })
      | none ↦ (
        false,
        record c { sets = set c.sets i (touch c.config.ways line s); misses = c.misses + 1 },
      )
    ]

unfoldable pub holds : Cache → ℕ → Bool
holds c phys =
    let line = line_of c.config phys in contains (get_or c.sets (set_of c.config line) []) line

-- Every set cleared.
abbrev pub clear : List (List ℕ) → List (List ℕ)
clear [] = []
clear (s ∷ ss) = [] ∷ clear ss

unfoldable pub invalidate : Cache → Cache
invalidate c = record c { sets = clear c.sets }
