-- ===== src/Checkpoint/File/Header.antt =====
-- src/checkpoint.rs, `read`: the header of a file, field by field.
use muir.Base.{ℕ, Bool, true, false, List, [], ◌∷◌, Option, none, some, ◌==◌, ◌&&◌, if◌then◌else◌}
use muir.Checkpoint.{Result, ok, err, not_a_checkpoint, bad_version, bad_name}
use muir.Checkpoint.Reader.{Reader, Get, take_bytes, u8, u32, pure, fail, ◌>>=◌, ◌>>◌}

-- "muir checkpoint\n"
abbrev pub magic : List ℕ
magic =
    0x6d ∷ 0x75 ∷ 0x69 ∷ 0x72 ∷ 0x20 ∷ 0x63 ∷ 0x68 ∷ 0x65 ∷ 0x63 ∷ 0x6b ∷ 0x70 ∷ 0x6f ∷ 0x69 ∷ 0x6e
    ∷ 0x74 ∷ 0x0a ∷ []

abbrev pub version : ℕ
version = 49

abbrev pub version_40 : ℕ
version_40 = 50

unfoldable pub same_bytes : List ℕ → List ℕ → Bool
same_bytes [] [] = true
same_bytes [] (b ∷ bs) = false
same_bytes (a ∷ as_) [] = false
same_bytes (a ∷ as_) (b ∷ bs) = a == b && same_bytes as_ bs

unfoldable pub word_bits_of : ℕ → Get ℕ
word_bits_of v =
    if v == version then pure 32 else if v == version_40 then pure 40 else fail (bad_version v)

-- A short file and a wrong one are refused alike.
abbrev pub magic_of : Result (List ℕ × Reader) → Result (Unit {0} × Reader)
magic_of (ok (bs, r)) = if same_bytes bs magic then ok (tt, r) else err not_a_checkpoint
magic_of (err e) = err not_a_checkpoint

unfoldable pub check_magic : Get (Unit {0})
check_magic r = magic_of (take_bytes 16 r)

module _ {S : Type 0} (from_utf8 : List ℕ → Option S) where
  abbrev pub name_of : Option S → Get S
  name_of none = fail bad_name
  name_of (some engine) = pure engine

  unfoldable pub header : Get (ℕ × ℕ × S × ℕ)
  header = do
    check_magic
    v ← u32
    word_bits ← word_bits_of v
    n ← u8
    name ← take_bytes n
    engine ← name_of (from_utf8 name)
    memory_boards ← u32
    pure (v, word_bits, engine, memory_boards)
