-- ===== src/Checkpoint/File/RoundTrip.antt =====
-- A checkpoint's file is read back as it was written.
use muir.Base.{ℕ, ◌^◌, ◌≤◌, ◌<◌, ◌≡◌, refl, ◌⊎◌, inl, inr, arith}
use muir.Base.{List, [], ◌∷◌, ◌++◌, Option, some, length, ◌==◌, low_bits}
use muir.Base.{if◌then◌else◌}
use muir.Checkpoint.{ok, ◌>>=◌}
use muir.Checkpoint.Writer.{le_bytes}
use muir.Checkpoint.Reader
use muir.Checkpoint.Codec.{take_bytes-prefix}
use muir.Checkpoint.Codec.Fields.{length-le_bytes, from_le-le_bytes}
use muir.Checkpoint.Packing.{pack, max_body}
use muir.Checkpoint.Packing.RoundTrip.{unpack-pack}
use muir.Checkpoint.File.{write, read, version_of}
use muir.Checkpoint.File.Header.{
  magic, version, version_40, header, check_magic, word_bits_of, same_bytes,
}

abbrev reader : List ℕ → Reader.Reader
reader bs = record { rest = bs; word_bytes = 4 }

check_magic-magic : (tail : List ℕ) → check_magic (reader (magic ++ tail)) ≡ ok (tt, reader tail)
unfolding check_magic same_bytes
check_magic-magic tail = rw (take_bytes-prefix 4 16 magic tail refl) refl

u32-le_bytes :
    (v : ℕ) (tail : List ℕ)
    → v < 2 ^ 32
    → Reader.u32 (reader (le_bytes 4 v ++ tail)) ≡ ok (v, reader tail)
unfolding Reader.u32
u32-le_bytes v tail h =
    rw (take_bytes-prefix 4 4 (le_bytes 4 v) tail (length-le_bytes 4 v), from_le-le_bytes 4 v h)

u8-byte : (v : ℕ) (tail : List ℕ) → Reader.u8 (reader ((v ∷ []) ++ tail)) ≡ ok (v, reader tail)
unfolding Reader.u8
u8-byte v tail = rw (take_bytes-prefix 4 1 (v ∷ []) tail refl) refl

module _ {S : Type 0} (from_utf8 : List ℕ → Option S) (engine : S) (name tail : List ℕ)
    (boards : ℕ) where
  module _ (utf8 : from_utf8 name ≡ some engine) (short : length name < 2 ^ 8)
      (few : boards < 2 ^ 32) where
    header-head :
        (v bits : ℕ)
        → v < 2 ^ 32
        → ((r : Reader.Reader) → word_bits_of v r ≡ ok (bits, r))
        → header from_utf8 (
            reader (
              magic
              ++ (le_bytes 4 v
                  ++ ((low_bits (length name) 8 ∷ [])
                      ++ (name ++ (le_bytes 4 (low_bits boards 32) ++ tail))))))
          ≡ ok ((v, bits, engine, boards), reader tail)
    unfolding header Reader.take_bytes
    header-head v bits h known =
        let n : low_bits (length name) 8 ≡ length name = omega arith in
        let b : low_bits boards 32 ≡ boards = omega arith in
        rw (
          n,
          b,
          check_magic-magic
              (le_bytes 4 v ++ ((length name ∷ []) ++ (name ++ (le_bytes 4 boards ++ tail)))),
          u32-le_bytes v ((length name ∷ []) ++ (name ++ (le_bytes 4 boards ++ tail))) h,
          known (reader ((length name ∷ []) ++ (name ++ (le_bytes 4 boards ++ tail)))),
          u8-byte (length name) (name ++ (le_bytes 4 boards ++ tail)),
          take_bytes-prefix 4 (length name) name (le_bytes 4 boards ++ tail) refl,
          utf8,
          u32-le_bytes boards tail few,
        )

-- What `write` gives for a machine of 32 or of 40 bits, `read` takes back: the version and the
-- width, the engine's name, the memory boards and every byte of the body, where the name has at
-- most 255 bytes and is UTF-8, the boards fit 32 bits and the body has at most 2^32 bytes.
pub read-write :
    {S : Type 0} (as_bytes : S → List ℕ) (from_utf8 : List ℕ → Option S) (engine : S)
    (memory_boards word_bits : ℕ) (body : List ℕ)
    → from_utf8 (as_bytes engine) ≡ some engine
    → length (as_bytes engine) < 2 ^ 8
    → memory_boards < 2 ^ 32
    → length body ≤ max_body
    → (word_bits ≡ 32) ⊎ (word_bits ≡ 40)
    → (write as_bytes engine memory_boards word_bits body >>= read from_utf8)
      ≡ ok (record {
        version = if word_bits == 32 then version else version_40;
        word_bits = word_bits;
        engine = engine;
        memory_boards = memory_boards;
        body = body;
      })
unfolding write read version_of word_bits_of
read-write as_bytes from_utf8 engine boards bits body utf8 short few room (inl e) = rw (
  e,
  header-head from_utf8 engine (as_bytes engine) (pack body) boards utf8 short few 49 32
      (omega arith) (λ r. refl),
  unpack-pack body room,
)
read-write as_bytes from_utf8 engine boards bits body utf8 short few room (inr e) = rw (
  e,
  header-head from_utf8 engine (as_bytes engine) (pack body) boards utf8 short few 50 40
      (omega arith) (λ r. refl),
  unpack-pack body room,
)
