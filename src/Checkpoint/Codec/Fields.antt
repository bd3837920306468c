-- ===== src/Checkpoint/Codec/Fields.antt =====
-- Each field by itself: the numbers, the flag, the speed, the level and the word.
use muir.Base.{ℕ, zero, suc, ◌-◌, ◌/◌, ◌%◌, ◌^◌, ◌≤◌, ◌<◌, ◌≡◌, refl, ap}
use muir.Base.{Bool, true, false, List, [], ◌∷◌, ◌++◌, arith, length, take, replicate}
use native.Mathlib.Nat.{pow-suc}
use muir.Memory.Cycle.{Speed, extra_slow, slow, normal, fast}
use muir.Checkpoint.Writer
use muir.Checkpoint.Writer.{Put, Level, low, high, z, x, extend, le_bytes}
use muir.Checkpoint.Reader
use muir.Checkpoint.Reader.{Get, from_le, take_bytes, and_then, pure}
use muir.Checkpoint.Codec.{Saves, Saves-seq, Saves-pure, take_bytes-prefix, writer}

pub length-le_bytes : (k v : ℕ) → length (le_bytes k v) ≡ k
length-le_bytes zero v = refl
length-le_bytes (suc k) v = ap suc (length-le_bytes k (v / 2 ^ 8))

pub from_le-le_bytes : (k v : ℕ) → v < (2 ^ 8) ^ k → from_le (le_bytes k v) ≡ v
from_le-le_bytes zero v h = omega arith
from_le-le_bytes (suc k) v h =
    omega
      (arith, pow-suc (2 ^ 8) k, from_le-le_bytes k (v / 2 ^ 8) (omega (arith, pow-suc (2 ^ 8) k)))

-- The bytes at the low end of a longer number.
pub from_le-pad : (bs : List ℕ) (k : ℕ) → from_le (bs ++ replicate k 0) ≡ from_le bs
from_le-pad [] zero = refl
from_le-pad [] (suc k) = omega (arith, from_le-pad [] k)
from_le-pad (b ∷ bs) k = omega (arith, from_le-pad bs k)

-- The low bytes of a number written longer.
pub take-le_bytes : (n k v : ℕ) → n ≤ k → take n (le_bytes k v) ≡ le_bytes n v
take-le_bytes zero k v h = refl
take-le_bytes (suc n) zero v h = absurd (omega arith)
take-le_bytes (suc n) (suc k) v h =
    ap (λ bs. v % 2 ^ 8 ∷ bs) (take-le_bytes n k (v / 2 ^ 8) (omega arith))

module _ (n : ℕ) where
  Saves-take : (bs : List ℕ) → Saves n (extend bs) (take_bytes (length bs)) bs
  Saves-take bs = record {
    encoding = bs;
    puts = λ out. refl;
    gets = λ tail. take_bytes-prefix n (length bs) bs tail refl;
  }

  -- A number of `k` bytes.
  pub Saves-le :
      (k v : ℕ)
      → v < (2 ^ 8) ^ k
      → Saves n (extend (le_bytes k v)) (λ r. and_then (take_bytes k r) (λ bs. pure (from_le bs))) v
  Saves-le k v h = record {
    encoding = le_bytes k v;
    puts = λ out. refl;
    gets = λ tail.
        rw
          (take_bytes-prefix n k (le_bytes k v) tail (length-le_bytes k v), from_le-le_bytes k v h);
  }

  pub Saves-u8 : (v : ℕ) → Saves n (Writer.u8 v) Reader.u8 v
  unfolding Writer.u8 Reader.u8
  Saves-u8 v = record {
    encoding = v ∷ [];
    puts = λ out. refl;
    gets = λ tail. rw (take_bytes-prefix n 1 (v ∷ []) tail refl);
  }

  pub Saves-u16 : (v : ℕ) → v < 2 ^ 16 → Saves n (Writer.u16 v) Reader.u16 v
  unfolding Writer.u16 Reader.u16
  Saves-u16 v h = Saves-le 2 v h

  pub Saves-u32 : (v : ℕ) → v < 2 ^ 32 → Saves n (Writer.u32 v) Reader.u32 v
  unfolding Writer.u32 Reader.u32
  Saves-u32 v h = Saves-le 4 v h

  pub Saves-u64 : (v : ℕ) → v < 2 ^ 64 → Saves n (Writer.u64 v) Reader.u64 v
  unfolding Writer.u64 Reader.u64
  Saves-u64 v h = Saves-le 8 v h

  pub Saves-bool : (v : Bool) → Saves n (Writer.bool v) Reader.bool v
  unfolding Writer.bool Reader.bool
  Saves-bool true = Saves-seq _ (Saves-u8 1) (Saves-pure true)
  Saves-bool false = Saves-seq _ (Saves-u8 0) (Saves-pure false)

  pub Saves-speed : (s : Speed) → Saves n (Writer.speed s) Reader.speed s
  unfolding Writer.speed Reader.speed
  Saves-speed extra_slow = Saves-seq _ (Saves-u8 0) (Saves-pure extra_slow)
  Saves-speed slow = Saves-seq _ (Saves-u8 1) (Saves-pure slow)
  Saves-speed normal = Saves-seq _ (Saves-u8 2) (Saves-pure normal)
  Saves-speed fast = Saves-seq _ (Saves-u8 3) (Saves-pure fast)

  pub Saves-level : (l : Level) → Saves n (Writer.level l) Reader.level l
  unfolding Writer.level Reader.level
  Saves-level low = Saves-seq _ (Saves-u8 0) (Saves-pure low)
  Saves-level high = Saves-seq _ (Saves-u8 1) (Saves-pure high)
  Saves-level z = Saves-seq _ (Saves-u8 2) (Saves-pure z)
  Saves-level x = Saves-seq _ (Saves-u8 3) (Saves-pure x)

  -- A word no wider than the bytes it takes.
  pub Saves-word : (v : ℕ) → n ≤ 8 → v < (2 ^ 8) ^ n → Saves n (Writer.word v) Reader.word v
  unfolding Writer.word Reader.word
  Saves-word v p h = record {
    encoding = le_bytes n v;
    puts = λ out. ap (λ bs. writer n (out ++ bs)) (take-le_bytes n 8 v p);
    gets = λ tail. rw (
      take_bytes-prefix n n (le_bytes n v) tail (length-le_bytes n v),
      from_le-pad (le_bytes n v) (8 - n),
      from_le-le_bytes n v h,
    );
  }
