-- ===== src/Checkpoint/Writer.antt =====
-- src/checkpoint.rs, `Writer`: the fields of a checkpoint, in order.
use muir.Base.{ℕ, zero, suc, Bool, true, false, List, [], ◌∷◌, ◌++◌}
use muir.Base.{Option, none, some, length, take, ◌==◌, if◌then◌else◌, of_bool, low_bits, ◌>>>◌}
use muir.Memory.Cycle.{Speed, extra_slow, slow, normal, fast}
use muir.Checkpoint.{width}

-- A wire's level, `part::Level`.
pub data Level : Type 0 where
  low high z x : Level

pub record Writer : Type 0 where
  pub out : List ℕ
  pub word_bytes : ℕ

-- A method of the writer, and two of them in order.
abbrev pub Put : Type 0
Put = Writer → Writer

infixr 5 ◌>>◌
abbrev pub ◌>>◌ : Put → Put → Put
(p >> q) w = q (p w)

abbrev pub new : Writer
new = record { out = []; word_bytes = 4 }

abbrev pub set_word_bits : ℕ → Put
set_word_bits bits w = record w { word_bytes = width bits }

-- `self.out.extend_from_slice(bytes)`
abbrev pub extend : List ℕ → Put
extend bytes w = record w { out = w.out ++ bytes }

-- `to_le_bytes` of an integer of `n` bytes.
abbrev pub le_bytes : ℕ → ℕ → List ℕ
le_bytes zero v = []
le_bytes (suc n) v = low_bits v 8 ∷ le_bytes n (v >>> 8)

unfoldable pub u8 : ℕ → Put
u8 v = extend (v ∷ [])

unfoldable pub u16 : ℕ → Put
u16 v = extend (le_bytes 2 v)

unfoldable pub u32 : ℕ → Put
u32 v = extend (le_bytes 4 v)

unfoldable pub u64 : ℕ → Put
u64 v = extend (le_bytes 8 v)

unfoldable pub bool : Bool → Put
bool v = u8 (of_bool v)

abbrev pub speed_code : Speed → ℕ
speed_code extra_slow = 0
speed_code slow = 1
speed_code normal = 2
speed_code fast = 3

unfoldable pub speed : Speed → Put
speed s = u8 (speed_code s)

abbrev pub level_code : Level → ℕ
level_code low = 0
level_code high = 1
level_code z = 2
level_code x = 3

unfoldable pub level : Level → Put
level l = u8 (level_code l)

unfoldable pub opt {ℓ} : {A : Type ℓ} → Option A → (A → Put) → Put
opt none put = bool false
opt (some a) put = bool true >> put a

unfoldable pub word : ℕ → Put
word v w = extend (take w.word_bytes (le_bytes 8 v)) w

-- The items of a sequence, one after another.
unfoldable pub each {ℓ} : {A : Type ℓ} → (A → Put) → List A → Put
each put [] w = w
each put (a ∷ as_) w = each put as_ (put a w)

-- A word of the four-byte road, `(x as u32).to_le_bytes()`.
unfoldable pub word_32 : ℕ → Put
word_32 v = extend (le_bytes 4 (low_bits v 32))

unfoldable pub words : List ℕ → Put
words v w = (u64 (length v) >> each (if w.word_bytes == 4 then word_32 else word) v) w

unfoldable pub bytes : List ℕ → Put
bytes v = u64 (length v) >> extend v

unfoldable pub u16s : List ℕ → Put
u16s v = u64 (length v) >> each u16 v

unfoldable pub u32s : List ℕ → Put
u32s v = u64 (length v) >> each u32 v

unfoldable pub u64s : List ℕ → Put
u64s v = u64 (length v) >> each u64 v
