-- ===== src/Memory/Cache/Lru.antt =====
-- The cache holds in each set the lines most recently read there, against the history of reads.
use muir.Base.{ℕ, zero, suc, ◌<◌, ◌==◌, if◌then◌else◌}
use muir.Base.{some, none, List, [], ◌∷◌, take, set, get_or, replicate, length}
use muir.Base.{◌≡◌, refl, sym, subst, ap, ◌∙◌, inl, inr, arith, Option-cases, Bool-cases}
use muir.Base.{get_or-set_self, get_or-set_ne, length-set, length-replicate, ==_iff}
use muir.Memory.Cache.{CacheConfig, Cache, sets_count, new, line_of, set_of, position, remove}
use muir.Memory.Cache.{touch, read}

-- A list without the first occurrence of a line.
abbrev pub erase : ℕ → List ℕ → List ℕ
erase line [] = []
erase line (l ∷ s) = if l == line then s else l ∷ erase line s

-- The lines of a history, latest first, each once, at its latest read.
abbrev pub recency : List ℕ → List ℕ
recency [] = []
recency (line ∷ history) = line ∷ erase line (recency history)

remove-take :
    (w k line : ℕ) (d : List ℕ)
    → position line (take (suc w) d) ≡ some k
    → remove k (take (suc w) d) ≡ take w (erase line d)
remove-take w k line [] h = ground arith
remove-take zero k line (x ∷ d) h = ground arith
remove-take (suc w) k line (x ∷ d) h = elim (Option-cases (position line (take (suc w) d))) [
  | inl none_at ↦ ground (arith, none_at)
  | inr (j, at_j) ↦ ground (arith, at_j, remove-take w j line d at_j)
]

take-erase :
    (w line : ℕ) (d : List ℕ)
    → position line (take (suc w) d) ≡ none
    → take w (erase line d) ≡ take w d
take-erase zero line d h = refl
take-erase (suc w) line [] h = refl
take-erase (suc w) line (x ∷ d) h = ground (arith, take-erase w line d)

take-take : (w : ℕ) (d : List ℕ) → take w (take (suc w) d) ≡ take w d
take-take zero d = refl
take-take (suc w) [] = refl
take-take (suc w) (x ∷ d) = ap (λ t. x ∷ t) (take-take w d)

-- The stack property of the replacement: touching the most recent lines gives the most recent.
pub touch-take :
    (ways line : ℕ) (d : List ℕ) → touch ways line (take ways d) ≡ take ways (line ∷ erase line d)
unfolding touch
touch-take zero line d = refl
touch-take (suc w) line d = elim (Option-cases (position line (take (suc w) d))) [
  | inl none_at ↦ ground (arith, none_at, take-take w d, take-erase w line d none_at)
  | inr (k, at_k) ↦ ground (arith, at_k, remove-take w k line d at_k)
]

-- The reads of a history, latest first, from an empty cache.
abbrev pub reads : CacheConfig → List ℕ → Cache
reads config [] = new config
reads config (phys ∷ history) = (read (reads config history) phys).1

-- The lines that a history reads in one set, latest first.
abbrev pub lines_read : CacheConfig → ℕ → List ℕ → List ℕ
lines_read config i [] = []
lines_read config i (phys ∷ history) =
    let rest = lines_read config i history in
    if set_of config (line_of config phys) == i then line_of config phys ∷ rest else rest

read-fields :
    (c : Cache) (phys : ℕ)
    → ((read c phys).1.config ≡ c.config)
      × ((read c phys).1.sets ≡ (
          let i = set_of c.config (line_of c.config phys) in
          set c.sets i (touch c.config.ways (line_of c.config phys) (get_or c.sets i []))))
unfolding read
read-fields c phys = ground arith

reads-shape :
    (config : CacheConfig) (history : List ℕ)
    → ((reads config history).config ≡ config)
      × (length (reads config history).sets ≡ sets_count config)
reads-shape config [] = (refl, length-replicate (sets_count config) [])
reads-shape config (phys ∷ history) =
    let c = reads config history in
    let f = read-fields c phys in
    let shape = reads-shape config history in
    (
      f.0 ∙ shape.0,
      ap length f.1
          ∙ length-set c.sets (set_of c.config (line_of c.config phys)) (
              touch c.config.ways (line_of c.config phys)
                (get_or c.sets (set_of c.config (line_of c.config phys)) []))
          ∙ shape.1,
    )

get_or-replicate : (n i : ℕ) → get_or {A = List ℕ} (replicate n []) i [] ≡ []
get_or-replicate zero i = refl
get_or-replicate (suc n) zero = refl
get_or-replicate (suc n) (suc i) = get_or-replicate n i

take-nil : (w : ℕ) → take {A = ℕ} w [] ≡ []
take-nil zero = refl
take-nil (suc w) = refl

-- One read's change to the sets, in terms of the shape that all reads keep.
reads-sets_step :
    (config : CacheConfig) (phys : ℕ) (history : List ℕ)
    → let sets = (reads config history).sets in
      let line = line_of config phys in
      (reads config (phys ∷ history)).sets
      ≡ set sets (set_of config line) (touch config.ways line (get_or sets (set_of config line) []))
reads-sets_step config phys history =
    let c = reads config history in
    (read-fields c phys).1
    ∙ ap
        (λ (g : CacheConfig).
          set c.sets (set_of g (line_of g phys))
            (touch g.ways (line_of g phys) (get_or c.sets (set_of g (line_of g phys)) [])))
        (reads-shape config history).0

-- After any reads a set holds the lines last read there, each once and latest first, as many as
-- it has ways.
pub reads-sets :
    (config : CacheConfig) (history : List ℕ) (i : ℕ)
    → i < sets_count config
    → get_or (reads config history).sets i []
      ≡ take config.ways (recency (lines_read config i history))
reads-sets config [] i h = get_or-replicate (sets_count config) i ∙ sym (take-nil config.ways)
reads-sets config (phys ∷ history) i h =
    let c = reads config history in
    let line = line_of config phys in
    let earlier = reads-sets config history i h in
    ap (λ ss. get_or ss i []) (reads-sets_step config phys history)
    ∙ elim (Bool-cases (set_of config line == i)) [
      | inl here ↦
          let same = (==_iff (set_of config line) i).0 here in
          ap (λ s. get_or (set c.sets s (touch config.ways line (get_or c.sets s []))) i []) same
          ∙ get_or-set_self c.sets i (touch config.ways line (get_or c.sets i [])) []
              (subst (λ n. i < n) (sym (reads-shape config history).1) h)
          ∙ ap (touch config.ways line) earlier
          ∙ touch-take config.ways line (recency (lines_read config i history))
          ∙ ap
              (λ b. take config.ways (
                recency
                  (if b then line ∷ lines_read config i history else lines_read config i history)))
              (sym here)
      | inr other ↦
          get_or-set_ne c.sets (set_of config line) i
            (touch config.ways line (get_or c.sets (set_of config line) [])) []
            (λ e. ground (arith, e, other))
          ∙ earlier
          ∙ ap
              (λ b. take config.ways (
                recency
                  (if b then line ∷ lines_read config i history else lines_read config i history)))
              (sym other)
    ]
