-- ===== src/Checkpoint/File.antt =====
-- src/checkpoint.rs, the file: a header and the packed body. The standard library's strings and
-- their check as UTF-8 are parameters; the file system's part is left out, so that `write` gives
-- the bytes and `read` takes them.
use muir.Base.{ℕ, Bool, true, false, List, [], ◌∷◌, ◌++◌, Option, none, some}
use muir.Base.{length, ◌==◌, if◌then◌else◌, low_bits}
use muir.Checkpoint.{Result, ok, err, ◌>>=◌, no_such_width}
use muir.Checkpoint.Writer.{le_bytes}
use muir.Checkpoint.Reader.{Reader, for_word_bits}
use muir.Checkpoint.Packing.{pack, unpack}
use muir.Checkpoint.File.Header.{magic, version, version_40, header}
pub mod Header
pub mod RoundTrip

pub record Checkpoint (S : Type 0) : Type 0 where
  pub version : ℕ
  pub word_bits : ℕ
  pub engine : S
  pub memory_boards : ℕ
  pub body : List ℕ

-- `Checkpoint::reader`
abbrev pub reader : {S : Type 0} → Checkpoint S → Reader
reader c = for_word_bits c.body c.word_bits

pub version_of : ℕ → Result ℕ
version_of word_bits =
    if word_bits == 32
    then ok version
    else if word_bits == 40
    then ok version_40
    else err (no_such_width word_bits)

module _ {S : Type 0} (as_bytes : S → List ℕ) where
  pub write : S → ℕ → ℕ → List ℕ → Result (List ℕ)
  write engine memory_boards word_bits body = do
    v ← version_of word_bits
    let name = as_bytes engine
    ok (
        magic
        ++ (le_bytes 4 v
            ++ ((low_bits (length name) 8 ∷ [])
                ++ (name ++ (le_bytes 4 (low_bits memory_boards 32) ++ pack body)))))

module _ {S : Type 0} (from_utf8 : List ℕ → Option S) where
  pub read : List ℕ → Result (Checkpoint S)
  read file = do
    ((v, bits, name, boards), r) ← header from_utf8 (record { rest = file; word_bytes = 4 })
    body ← unpack r.rest
    ok (record {
      version = v;
      word_bits = bits;
      engine = name;
      memory_boards = boards;
      body = body;
    })
