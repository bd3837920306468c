-- ===== src/Checkpoint/Examples.antt =====
-- Tests of the packing and the file, and their theorems at concrete bodies.
use muir.Base.{ℕ, ◌+◌, ◌≤◌, ◌≡◌, ◌≢◌, refl, arith, List, [], ◌∷◌, some, length, inr}
use muir.Checkpoint.{ok, err, ◌>>=◌, out_of_fuel}
use muir.Checkpoint.Packing.{pack, unpack, max_body}
use muir.Checkpoint.Packing.RoundTrip.{unpack-pack}
use muir.Checkpoint.Packing.Bounds.{unpack-bound, unpack-ends}
use muir.Checkpoint.File.{write, read}
use muir.Checkpoint.File.RoundTrip.{read-write}

abbrev raw : List ℕ
raw = 0 ∷ 0 ∷ 0 ∷ 0 ∷ 0 ∷ 7 ∷ 0 ∷ 8 ∷ 0 ∷ 0 ∷ 0 ∷ 0 ∷ []

unpack-pack_example : unpack (pack raw) ≡ ok raw
unpack-pack_example = unpack-pack raw (omega arith)

unpack-bound_example : length raw ≤ max_body + length (pack raw)
unpack-bound_example = unpack-bound (pack raw) raw (unpack-pack raw (omega arith))

unpack-ends_example : unpack (0x80 ∷ 0x80 ∷ []) ≢ err out_of_fuel
unpack-ends_example = unpack-ends (0x80 ∷ 0x80 ∷ [])

-- "rtl"
abbrev rtl : List ℕ
rtl = 0x72 ∷ 0x74 ∷ 0x6c ∷ []

read-write_example :
    (write (λ s. s) rtl 8 40 raw >>= read some)
    ≡ ok (record { version = 50; word_bits = 40; engine = rtl; memory_boards = 8; body = raw })
read-write_example =
    read-write (λ s. s) some rtl 8 40 raw refl (omega arith) (omega arith) (omega arith) (inr refl)
