-- ===== src/Base/Memory.antt =====
-- A memory of words as a function of the address.
use Prim.Native.Nat.{ℕ, zero, suc, ◌+◌, ◌<◌}
use mathlib.Core.Path.{◌≡◌, refl, ap, ◌∙◌}
use mathlib.Core.List.{List, [], ◌∷◌}
use mathlib.Core.Logic.{◌≢◌}
use native.Mathlib.Omega.{arith}
use muir.Base.Seq.{length, get_or, All}
use muir.Base.Test.{◌==◌, if◌then◌else◌}

abbrev pub Memory : Type 0
Memory = ℕ → ℕ

abbrev pub update : Memory → ℕ → ℕ → Memory
update f i v = λ j. if j == i then v else f j

pub update_self : (f : Memory) (i j v : ℕ) → j ≡ i → update f i v j ≡ v
update_self f i j v e = ground arith

pub update_ne : (f : Memory) (i j v : ℕ) → j ≢ i → update f i v j ≡ f j
update_ne f i j v ne = ground arith

-- The `n` words from an address on, and the memory that a list of words fills.
pub table : Memory → ℕ → ℕ → List ℕ
table f i zero = []
table f i (suc n) = f i ∷ table f (suc i) n

abbrev pub of_list : List ℕ → Memory
of_list words i = get_or words i 0

pub length-table : (f : Memory) (i n : ℕ) → length (table f i n) ≡ n
unfolding table
length-table f i zero = refl
length-table f i (suc n) = ap suc (length-table f (suc i) n)

pub get_or-table : (f : Memory) (i n j : ℕ) → j < n → get_or (table f i n) j 0 ≡ f (i + j)
unfolding table
get_or-table f i zero j h = absurd (omega arith)
get_or-table f i (suc n) zero h = ap f (omega arith)
get_or-table f i (suc n) (suc j) h = get_or-table f (suc i) n j (omega arith) ∙ ap f (omega arith)

pub table-All : (P : ℕ → Type 0) (f : Memory) (i n : ℕ) → ((j : ℕ) → P (f j)) → All P (table f i n)
unfolding table
table-All P f i zero h = tt
table-All P f i (suc n) h = (h i, table-All P f (suc i) n h)
