-- ===== src/Checkpoint/Reader.antt =====
-- src/checkpoint.rs, `Reader`: the fields back, in the order they were written. The state is
-- the bytes not yet taken, `data[at..]`; a message's position is left out.
use muir.Base.{ℕ, zero, suc, ◌+◌, ◌-◌, ◌*◌, ◌^◌, Bool, true, false, List, [], ◌∷◌, ◌++◌}
use muir.Base.{Option, none, some, length, take, drop, replicate, get_or, leb, ◌==◌}
use muir.Base.{if◌then◌else◌}
use muir.Memory.Cycle.{Speed, extra_slow, slow, normal, fast}
use muir.Checkpoint.{
  Error, Result, ok, err, width, file_ends_early, bad_flag, bad_speed, bad_level, wrong_count,
  left_over,
}
use muir.Checkpoint.Writer.{Level, low, high, z, x}

pub record Reader : Type 0 where
  pub rest : List ℕ
  pub word_bytes : ℕ

abbrev pub Get {ℓ} : Type ℓ → Type ℓ
Get A = Reader → Result (A × Reader)

abbrev pub and_then {ℓ κ} :
    {A : Type ℓ} {B : Type κ} → Result (A × Reader) → (A → Get B) → Result (B × Reader)
and_then (ok (a, r)) f = f a r
and_then (err e) f = err e

infixl 5 ◌>>=◌ ◌>>◌
abbrev pub ◌>>=◌ {ℓ κ} : {A : Type ℓ} {B : Type κ} → Get A → (A → Get B) → Get B
(g >>= f) r = and_then (g r) f

abbrev pub ◌>>◌ {ℓ κ} : {A : Type ℓ} {B : Type κ} → Get A → Get B → Get B
g >> h = g >>= λ _. h

abbrev pub pure {ℓ} : {A : Type ℓ} → A → Get A
pure a r = ok (a, r)

abbrev pub fail {ℓ} : {A : Type ℓ} → Error → Get A
fail e r = err e

abbrev pub for_word_bits : List ℕ → ℕ → Reader
for_word_bits body bits = record { rest = body; word_bytes = width bits }

-- `take`
unfoldable pub take_bytes : ℕ → Get (List ℕ)
take_bytes n r =
    if leb n (length r.rest)
    then ok (take n r.rest, record r { rest = drop n r.rest })
    else err (file_ends_early n)

-- `from_le_bytes`
abbrev pub from_le : List ℕ → ℕ
from_le [] = 0
from_le (b ∷ bs) = b + from_le bs * 2 ^ 8

unfoldable pub u8 : Get ℕ
u8 = do bs ← take_bytes 1; pure (get_or bs 0 0)

unfoldable pub u16 : Get ℕ
u16 = do pure (from_le (← take_bytes 2))

unfoldable pub u32 : Get ℕ
u32 = do pure (from_le (← take_bytes 4))

unfoldable pub u64 : Get ℕ
u64 = do pure (from_le (← take_bytes 8))

abbrev flag_of : ℕ → Get Bool
flag_of zero = pure false
flag_of (suc zero) = pure true
flag_of v = fail (bad_flag v)

unfoldable pub bool : Get Bool
bool = u8 >>= flag_of

abbrev speed_of : ℕ → Get Speed
speed_of zero = pure extra_slow
speed_of (suc zero) = pure slow
speed_of (suc (suc zero)) = pure normal
speed_of (suc (suc (suc zero))) = pure fast
speed_of v = fail (bad_speed v)

unfoldable pub speed : Get Speed
speed = u8 >>= speed_of

abbrev level_of : ℕ → Get Level
level_of zero = pure low
level_of (suc zero) = pure high
level_of (suc (suc zero)) = pure z
level_of (suc (suc (suc zero))) = pure x
level_of v = fail (bad_level v)

unfoldable pub level : Get Level
level = u8 >>= level_of

abbrev opt_of {ℓ} : {A : Type ℓ} → Get A → Bool → Get (Option A)
opt_of get true = do a ← get; pure (some a)
opt_of get false = pure none

unfoldable pub opt {ℓ} : {A : Type ℓ} → Get A → Get (Option A)
opt get = bool >>= opt_of get

-- `word`: the bytes at the low end of eight.
unfoldable pub word : Get ℕ
word r = (do bs ← take_bytes r.word_bytes; pure (from_le (bs ++ replicate (8 - r.word_bytes) 0))) r

-- `(0..n).map(|_| get()).collect()`, and the loops that fill a slot of `n` items.
unfoldable pub times {ℓ} : {A : Type ℓ} → ℕ → Get A → Get (List A)
times zero get = pure []
times (suc n) get = do a ← get; more ← times n get; pure (a ∷ more)

unfoldable pub count_for : ℕ → Get ℕ
count_for slot = do n ← u64; if n == slot then pure n else fail (wrong_count n slot)

unfoldable pub bytes : Get (List ℕ)
bytes = u64 >>= take_bytes

unfoldable pub bytes_into : ℕ → Get (List ℕ)
bytes_into slot = count_for slot >>= take_bytes

unfoldable pub u16s : Get (List ℕ)
u16s = do n ← u64; times n u16

unfoldable pub u16s_into : ℕ → Get (List ℕ)
u16s_into slot = count_for slot >> times slot u16

unfoldable pub u32s : Get (List ℕ)
u32s = do n ← u64; times n u32

unfoldable pub u32s_into : ℕ → Get (List ℕ)
u32s_into slot = count_for slot >> times slot u32

unfoldable pub u64s : Get (List ℕ)
u64s = do n ← u64; times n u64

unfoldable pub u64s_into : ℕ → Get (List ℕ)
u64s_into slot = count_for slot >> times slot u64

-- The words of `chunks_exact(size)`, `n` of them, each at the low end of eight bytes.
unfoldable pub chunks : ℕ → ℕ → List ℕ → List ℕ
chunks zero size bs = []
chunks (suc n) size bs =
    from_le (take size bs ++ replicate (8 - size) 0) ∷ chunks n size (drop size bs)

-- Those of the four-byte road, each a `u32`.
unfoldable pub chunks_32 : ℕ → List ℕ → List ℕ
chunks_32 zero bs = []
chunks_32 (suc n) bs = from_le (take 4 bs) ∷ chunks_32 n (drop 4 bs)

unfoldable pub words_into : ℕ → Get (List ℕ)
words_into slot r =
    (do
      n ← count_for slot
      bs ← take_bytes (n * r.word_bytes)
      pure (if r.word_bytes == 4 then chunks_32 n bs else chunks n r.word_bytes bs))
      r

-- Nothing left: every field has been taken.
unfoldable pub done : Get (Unit {0})
done r = if length r.rest == 0 then ok (tt, r) else err (left_over (length r.rest))
