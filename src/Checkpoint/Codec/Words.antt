-- ===== src/Checkpoint/Codec/Words.antt =====
-- The machine's words with their count, by both of the writer's roads and both of the reader's.
use muir.Base.{ℕ, ◌-◌, ◌*◌, ◌^◌, ◌≤◌, ◌<◌, ◌≡◌, refl, ap, sym, ◌∙◌, subst}
use muir.Base.{Bool, true, false, List, [], ◌∷◌, ◌++◌, arith, length, AllBelow, ap₂}
use muir.Base.{==_iff, ◌==◌, if◌then◌else◌, length-append, low_bits}
use muir.Base.{take_prefix, drop_prefix}
use mathlib.Core.List.{append-nil, append_assoc}
use muir.Checkpoint.Writer
use muir.Checkpoint.Writer.{Put, extend, each, le_bytes, word_32}
use muir.Checkpoint.Reader
use muir.Checkpoint.Reader.{Get, take_bytes, and_then, pure, count_for, from_le, chunks, chunks_32}
use muir.Checkpoint.Codec.{Saves, take_bytes-prefix, writer}
use muir.Checkpoint.Codec.Fields.{length-le_bytes, from_le-le_bytes, from_le-pad, take-le_bytes}
use muir.Checkpoint.Codec.Sequences.{Saves-count_for}

flat : ℕ → List ℕ → List ℕ
flat n [] = []
flat n (v ∷ vs) = le_bytes n v ++ flat n vs

length-flat : (n : ℕ) (vs : List ℕ) → length (flat n vs) ≡ length vs * n
unfolding flat
length-flat n [] = omega arith
length-flat n (v ∷ vs) =
    length-append (le_bytes n v) (flat n vs) ∙ ground (arith, length-le_bytes n v, length-flat n vs)

-- What a loop writes whose turns write the bytes of their words.
each-flat :
    (n : ℕ) (put : ℕ → Put) (vs : List ℕ)
    → AllBelow ((2 ^ 8) ^ n) vs
    → ((v : ℕ)
        → v < (2 ^ 8) ^ n
        → (out : List ℕ) → put v (writer n out) ≡ writer n (out ++ le_bytes n v))
    → (out : List ℕ) → each put vs (writer n out) ≡ writer n (out ++ flat n vs)
unfolding each flat
each-flat n put [] h item out = ap (writer n) (sym (append-nil out))
each-flat n put (v ∷ vs) h item out =
    ap (each put vs) (item v h.0 out)
    ∙ each-flat n put vs h.1 item (out ++ le_bytes n v)
    ∙ ap (writer n) (append_assoc out (le_bytes n v) (flat n vs))

chunks-flat :
    (n : ℕ) (vs : List ℕ) → AllBelow ((2 ^ 8) ^ n) vs → chunks (length vs) n (flat n vs) ≡ vs
unfolding flat chunks
chunks-flat n [] h = refl
chunks-flat n (v ∷ vs) h = rw (
  take_prefix n (le_bytes n v) (flat n vs) (length-le_bytes n v),
  drop_prefix n (le_bytes n v) (flat n vs) (length-le_bytes n v),
  from_le-pad (le_bytes n v) (8 - n),
  from_le-le_bytes n v h.0,
  chunks-flat n vs h.1,
)

chunks_32-flat : (vs : List ℕ) → AllBelow ((2 ^ 8) ^ 4) vs → chunks_32 (length vs) (flat 4 vs) ≡ vs
unfolding flat chunks_32
chunks_32-flat [] h = refl
chunks_32-flat (v ∷ vs) h = ap₂ ◌∷◌ (from_le-le_bytes 4 v h.0) (chunks_32-flat vs h.1)

word_32-writes :
    (n : ℕ)
    → n ≡ 4
    → (v : ℕ) → v < (2 ^ 8) ^ n
    → (out : List ℕ) → word_32 v (writer n out) ≡ writer n (out ++ le_bytes n v)
unfolding word_32
word_32-writes n e v h out =
    let fits : v < 2 ^ 32 = subst (λ k. v < (2 ^ 8) ^ k) e h in
    let same : low_bits v 32 ≡ v = omega arith in rw (same, e)

word-writes :
    (n : ℕ)
    → n ≤ 8
    → (v : ℕ) → (out : List ℕ) → Writer.word v (writer n out) ≡ writer n (out ++ le_bytes n v)
unfolding Writer.word
word-writes n p v out = ap (λ bs. writer n (out ++ bs)) (take-le_bytes n 8 v p)

module _ (n : ℕ) (vs : List ℕ) (narrow : n ≤ 8) (h : AllBelow ((2 ^ 8) ^ n) vs) where
  each-words :
      (b : Bool)
      → (n == 4) ≡ b
      → (out : List ℕ)
      → each (if b then word_32 else Writer.word) vs (writer n out) ≡ writer n (out ++ flat n vs)
  each-words true e out = each-flat n word_32 vs h (word_32-writes n ((==_iff n 4).0 e)) out
  each-words false e out = each-flat n Writer.word vs h (λ v _ o. word-writes n narrow v o) out

  chunks-words :
      (b : Bool)
      → (n == 4) ≡ b
      → (if b then chunks_32 (length vs) (flat n vs) else chunks (length vs) n (flat n vs)) ≡ vs
  chunks-words true e =
      subst (λ k. AllBelow ((2 ^ 8) ^ k) vs → chunks_32 (length vs) (flat k vs) ≡ vs)
        (sym ((==_iff n 4).0 e)) (chunks_32-flat vs) h
  chunks-words false e = chunks-flat n vs h

  pub Saves-words :
      length vs < 2 ^ 64 → Saves n (Writer.words vs) (Reader.words_into (length vs)) vs
  unfolding Writer.words Reader.words_into
  Saves-words counted =
      let s = Saves-count_for n (length vs) counted in
      record {
        encoding = s.encoding ++ flat n vs;
        puts = λ out.
            ap (each _ vs) (s.puts out)
            ∙ each-words _ refl (out ++ s.encoding)
            ∙ ap (writer n) (append_assoc out s.encoding (flat n vs));
        gets = λ tail. rw (
          append_assoc s.encoding (flat n vs) tail,
          s.gets (flat n vs ++ tail),
          take_bytes-prefix n (length vs * n) (flat n vs) tail (length-flat n vs),
          chunks-words _ refl,
        );
      }
