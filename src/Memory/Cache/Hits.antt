-- ===== src/Memory/Cache/Hits.antt =====
-- What a read answers and leaves, and what an invalidation leaves.
use muir.Base.{ℕ, zero, suc, ◌≤◌, ◌<◌, ◌==◌, true, false}
use muir.Base.{some, none, List, [], ◌∷◌, set, get_or, length}
use muir.Base.{◌≡◌, refl, ap, ◌∙◌, inl, inr, arith, Option-cases, Bool-cases, ==_refl}
use muir.Base.{get_or-set_self}
use muir.Memory.Cache.{Cache, line_of, set_of, position}
use muir.Memory.Cache.{contains, touch, read, holds, invalidate, clear}

contains-none : (line : ℕ) (s : List ℕ) → position line s ≡ none → contains s line ≡ false
contains-none line [] h = refl
contains-none line (l ∷ s) h = ground (arith, Option-cases (position line s), contains-none line s)

contains-some : (line k : ℕ) (s : List ℕ) → position line s ≡ some k → contains s line ≡ true
contains-some line k [] h = ground arith
contains-some line k (l ∷ s) h = elim (Option-cases (position line s)) [
  | inl none_at ↦ ground (arith, none_at, Bool-cases (l == line))
  | inr (j, at_j) ↦ ground (arith, contains-some line j s at_j, Bool-cases (l == line))
]

-- The line touched is in its set, if there is a way.
contains-touch : (ways line : ℕ) (s : List ℕ) → 1 ≤ ways → contains (touch ways line s) line ≡ true
unfolding touch
contains-touch zero line s h = absurd (omega arith)
contains-touch (suc w) line s h = ground (arith, Option-cases (position line s), ==_refl line)

read-hit : (c : Cache) (phys : ℕ) → (read c phys).0 ≡ holds c phys
unfolding read holds
read-hit c phys =
    let line = line_of c.config phys in
    let s = get_or c.sets (set_of c.config line) [] in
    elim (Option-cases (position line s)) [
      | inl none_at ↦ ground (arith, none_at, contains-none line s none_at)
      | inr (k, at_k) ↦ ground (arith, at_k, contains-some line k s at_k)
    ]

read-kept :
    (c : Cache) (phys : ℕ)
    → 1 ≤ c.config.ways
    → set_of c.config (line_of c.config phys) < length c.sets
    → holds (read c phys).1 phys ≡ true
unfolding read holds
read-kept c phys way fits =
    let line = line_of c.config phys in
    let i = set_of c.config line in
    let s = get_or c.sets i [] in
    let t = touch c.config.ways line s in
    let there : contains (get_or (set c.sets i t) i []) line ≡ true =
      ap (λ x. contains x line) (get_or-set_self c.sets i t [] fits)
      ∙ contains-touch c.config.ways line s way in
    elim (Option-cases (position line s)) [
      | inl none_at ↦ ground (arith, none_at, there)
      | inr (k, at_k) ↦ ground (arith, at_k, there)
    ]

-- In a cache with a way and the set of the word's line, a read hits exactly if the line is held;
-- after it the line is held, and a second read of the word hits.
pub read-holds :
    (c : Cache) (phys : ℕ)
    → 1 ≤ c.config.ways
    → set_of c.config (line_of c.config phys) < length c.sets
    → ((read c phys).0 ≡ holds c phys)
      × (holds (read c phys).1 phys ≡ true)
      × ((read (read c phys).1 phys).0 ≡ true)
read-holds c phys way fits =
    let kept = read-kept c phys way fits in
    (read-hit c phys, kept, read-hit (read c phys).1 phys ∙ kept)

get_or-clear : (ss : List (List ℕ)) (i : ℕ) → get_or (clear ss) i [] ≡ []
get_or-clear [] i = refl
get_or-clear (s ∷ ss) zero = refl
get_or-clear (s ∷ ss) (suc i) = get_or-clear ss i

invalidate-dropped : (c : Cache) (phys : ℕ) → holds (invalidate c) phys ≡ false
unfolding holds invalidate
invalidate-dropped c phys =
    ap (λ s. contains s (line_of c.config phys))
      (get_or-clear c.sets (set_of c.config (line_of c.config phys)))

-- After an invalidation no word is held, so that the next read of any word misses.
pub invalidate-holds :
    (c : Cache) (phys : ℕ)
    → (holds (invalidate c) phys ≡ false) × ((read (invalidate c) phys).0 ≡ false)
invalidate-holds c phys =
    (invalidate-dropped c phys, read-hit (invalidate c) phys ∙ invalidate-dropped c phys)
