-- ===== src/Checkpoint/Codec/Sequences.antt =====
-- An optional field, and the sequences with their counts.
use muir.Base.{ℕ, ◌^◌, ◌<◌, refl}
use muir.Base.{true, false, List, [], ◌∷◌, length, All, IfSome, AllBelow, Option, none, some}
use muir.Base.{==_refl}
use muir.Checkpoint.Writer
use muir.Checkpoint.Writer.{Put, extend, each, le_bytes}
use muir.Checkpoint.Reader
use muir.Checkpoint.Reader.{
  Get, times, take_bytes, and_then, pure, count_for, from_le, chunks, chunks_32,
}
use muir.Checkpoint.Codec.{Saves, Saves-seq, Saves-pure, take_bytes-prefix}
use muir.Checkpoint.Codec.Fields.{Saves-bool, Saves-u16, Saves-u32, Saves-u64}

-- `opt` with a pair of methods for the value.
pub Saves-opt {ℓ κ} :
    {n : ℕ} {A : Type ℓ} {put : A → Put} {get : Get A} (P : A → Type κ)
    (item : (a : A) → P a → Saves n (put a) get a) (o : Option A)
    → IfSome P o
    → Saves n (Writer.opt o put) (Reader.opt get) o
unfolding Writer.opt Reader.opt
Saves-opt {n} P item none h = Saves-seq _ (Saves-bool n false) (Saves-pure none)
Saves-opt {n} P item (some a) h =
    Saves-seq _ (Saves-bool n true) (Saves-seq _ (item a h) (Saves-pure (some a)))

module _ (n : ℕ) where
  pub Saves-All {ℓ κ} :
      {A : Type ℓ} {put : A → Put} {get : Get A} (P : A → Type κ)
      (item : (a : A) → P a → Saves n (put a) get a) (xs : List A)
      → All P xs
      → Saves n (each put xs) (times (length xs) get) xs
  unfolding each times
  Saves-All P item [] h = Saves-pure []
  Saves-All P item (x ∷ xs) h =
      Saves-seq _ (item x h.0) (Saves-seq _ (Saves-All P item xs h.1) (Saves-pure (x ∷ xs)))

  pub Saves-each :
      {put : ℕ → Put} {get : Get ℕ} (bound : ℕ) (item : (v : ℕ) → v < bound → Saves n (put v) get v)
      (xs : List ℕ)
      → AllBelow bound xs
      → Saves n (each put xs) (times (length xs) get) xs
  Saves-each bound item xs h = Saves-All (λ v. v < bound) item xs h

  -- A count that is the slot's own.
  pub Saves-count_for : (slot : ℕ) → slot < 2 ^ 64 → Saves n (Writer.u64 slot) (count_for slot) slot
  unfolding count_for
  Saves-count_for slot h =
      let s = Saves-u64 n slot h in
      record { encoding = s.encoding; puts = s.puts; gets = λ tail. rw (s.gets tail, ==_refl slot) }

  module _ (v : List ℕ) (counted : length v < 2 ^ 64) where
    Saves-extend : Saves n (extend v) (take_bytes (length v)) v
    Saves-extend = record {
      encoding = v;
      puts = λ out. refl;
      gets = λ tail. take_bytes-prefix n (length v) v tail refl;
    }

    pub Saves-bytes : Saves n (Writer.bytes v) Reader.bytes v
    unfolding Writer.bytes Reader.bytes
    Saves-bytes = Saves-seq take_bytes (Saves-u64 n (length v) counted) Saves-extend

    pub Saves-bytes_into : Saves n (Writer.bytes v) (Reader.bytes_into (length v)) v
    unfolding Writer.bytes Reader.bytes_into
    Saves-bytes_into = Saves-seq take_bytes (Saves-count_for (length v) counted) Saves-extend

    pub Saves-u16s : AllBelow (2 ^ 16) v → Saves n (Writer.u16s v) Reader.u16s v
    unfolding Writer.u16s Reader.u16s
    Saves-u16s h =
        Saves-seq (λ k. times k Reader.u16) (Saves-u64 n (length v) counted)
          (Saves-each (2 ^ 16) (Saves-u16 n) v h)

    pub Saves-u16s_into :
        AllBelow (2 ^ 16) v → Saves n (Writer.u16s v) (Reader.u16s_into (length v)) v
    unfolding Writer.u16s Reader.u16s_into
    Saves-u16s_into h =
        Saves-seq _ (Saves-count_for (length v) counted) (Saves-each (2 ^ 16) (Saves-u16 n) v h)

    pub Saves-u32s : AllBelow (2 ^ 32) v → Saves n (Writer.u32s v) Reader.u32s v
    unfolding Writer.u32s Reader.u32s
    Saves-u32s h =
        Saves-seq (λ k. times k Reader.u32) (Saves-u64 n (length v) counted)
          (Saves-each (2 ^ 32) (Saves-u32 n) v h)

    pub Saves-u32s_into :
        AllBelow (2 ^ 32) v → Saves n (Writer.u32s v) (Reader.u32s_into (length v)) v
    unfolding Writer.u32s Reader.u32s_into
    Saves-u32s_into h =
        Saves-seq _ (Saves-count_for (length v) counted) (Saves-each (2 ^ 32) (Saves-u32 n) v h)

    pub Saves-u64s : AllBelow (2 ^ 64) v → Saves n (Writer.u64s v) Reader.u64s v
    unfolding Writer.u64s Reader.u64s
    Saves-u64s h =
        Saves-seq (λ k. times k Reader.u64) (Saves-u64 n (length v) counted)
          (Saves-each (2 ^ 64) (Saves-u64 n) v h)

    pub Saves-u64s_into :
        AllBelow (2 ^ 64) v → Saves n (Writer.u64s v) (Reader.u64s_into (length v)) v
    unfolding Writer.u64s Reader.u64s_into
    Saves-u64s_into h =
        Saves-seq _ (Saves-count_for (length v) counted) (Saves-each (2 ^ 64) (Saves-u64 n) v h)
