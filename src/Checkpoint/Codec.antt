-- ===== src/Checkpoint/Codec.antt =====
-- Reading gives what was written: what it is for a reader's method to take back what a writer's
-- method wrote, whatever follows, and how this goes through sequences of methods.
use muir.Base.{
  ℕ, ◌+◌, ◌≡◌, refl, ap, sym, ◌∙◌, Bool, true, false, List, [], ◌∷◌, ◌++◌, Option, none,
}
use muir.Base.{some, arith, length, length-append, take, drop, take_prefix, drop_prefix, leb}
use mathlib.Core.List.{append-nil, append_assoc}
use muir.Checkpoint.{ok}
use muir.Checkpoint.Writer
use muir.Checkpoint.Writer.{Put, extend}
use muir.Checkpoint.Reader
use muir.Checkpoint.Reader.{Get, take_bytes, pure, and_then, done}
pub mod Fields
pub mod Sequences
pub mod Words

-- A writer and a reader of words of `n` bytes.
abbrev pub writer : ℕ → List ℕ → Writer.Writer
writer n bs = record { out = bs; word_bytes = n }

abbrev pub reader : ℕ → List ℕ → Reader.Reader
reader n bs = record { rest = bs; word_bytes = n }

-- With words of `n` bytes, `put` appends bytes that `get` takes back as `a`, whatever follows.
pub record Saves {ℓ} (n : ℕ) {A : Type ℓ} (put : Put) (get : Get A) (a : A) : Type ℓ where
  pub encoding : List ℕ
  pub puts : (out : List ℕ) → put (writer n out) ≡ writer n (out ++ encoding)
  pub gets : (tail : List ℕ) → get (reader n (encoding ++ tail)) ≡ ok (a, reader n tail)

pub take_bytes-prefix :
    (n k : ℕ) (bs tail : List ℕ)
    → length bs ≡ k
    → take_bytes k (reader n (bs ++ tail)) ≡ ok (bs, reader n tail)
unfolding take_bytes
take_bytes-prefix n k bs tail e =
    let fits : leb k (length (bs ++ tail)) ≡ true = ground (arith, length-append bs tail) in
    rw (fits, take_prefix k bs tail e, drop_prefix k bs tail e)

-- Nothing written, nothing taken.
pub Saves-here {ℓ} :
    {n : ℕ} {A : Type ℓ} {get : Get A} {a : A}
    → ((tail : List ℕ) → get (reader n tail) ≡ ok (a, reader n tail))
    → Saves n (λ w. w) get a
Saves-here {n} h = record {
  encoding = [];
  puts = λ out. ap (writer n) (sym (append-nil out));
  gets = h;
}

pub Saves-pure_of {ℓ} : {n : ℕ} {A : Type ℓ} {a b : A} → a ≡ b → Saves n (λ w. w) (pure a) b
Saves-pure_of {n} e = Saves-here (λ tail. ap (λ v. ok (v, reader n tail)) e)

pub Saves-pure {ℓ} : {n : ℕ} {A : Type ℓ} (a : A) → Saves n (λ w. w) (pure a) a
Saves-pure a = Saves-pure_of refl

module _ {ℓ κ} {n : ℕ} {A : Type ℓ} {B : Type κ} where
  -- One method after another, the second reading as it must after what the first gave.
  pub Saves-seq :
      {p q : Put} {g : Get A} (k : A → Get B) {a : A} {b : B}
      → Saves n p g a
      → Saves n q (k a) b
      → Saves n (λ w. q (p w)) (λ r. and_then (g r) k) b
  Saves-seq {p} {q} {g} k {a} {b} s t = record {
    encoding = s.encoding ++ t.encoding;
    puts = λ out.
        ap q (s.puts out)
        ∙ t.puts (out ++ s.encoding)
        ∙ ap (writer n) (append_assoc out s.encoding t.encoding);
    gets = λ tail.
        ap (λ bs. and_then (g (reader n bs)) k) (append_assoc s.encoding t.encoding tail)
        ∙ ap (λ o. and_then o k) (s.gets (t.encoding ++ tail))
        ∙ t.gets tail;
  }

-- What only sets the writer's state writes nothing.
pub Saves-after {ℓ} :
    {n : ℕ} {A : Type ℓ} {p q : Put} {get : Get A} {a : A}
    → ((out : List ℕ) → p (writer n out) ≡ writer n out)
    → Saves n q get a
    → Saves n (λ w. q (p w)) get a
Saves-after {q = q} e s = record {
  encoding = s.encoding;
  puts = λ out. ap q (e out) ∙ s.puts out;
  gets = s.gets;
}

abbrev pub to_the_end {ℓ} : {A : Type ℓ} → Get A → Get A
to_the_end get r = and_then (get r) (λ a r'. and_then (done r') (λ _. pure a))

-- A body that holds nothing else is read to its end.
pub Saves-whole {ℓ} :
    {n : ℕ} {A : Type ℓ} {put : Put} {get : Get A} {a : A}
    → Saves n put get a
    → to_the_end get (reader n (put (writer n [])).out) ≡ ok (a, reader n [])
unfolding done
Saves-whole {n} {get = get} {a} s =
    ap (λ w. to_the_end get (reader n w.out)) (s.puts [])
    ∙ ap (λ bs. to_the_end get (reader n bs)) (sym (append-nil s.encoding))
    ∙ rw (s.gets []) refl
