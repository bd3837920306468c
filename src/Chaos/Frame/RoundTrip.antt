-- ===== src/Chaos/Frame/RoundTrip.antt =====
-- A frame taken off the cable is the buffer that was put on it.
use muir.Base.{ℕ, suc, ◌+◌, ◌-◌, ◌*◌, ◌/◌, ◌%◌, ◌^◌, ◌≤◌, ◌<◌, List, [], ◌∷◌, ◌++◌, reverse, Bool}
use muir.Base.{true, false, ◌≡◌, refl, sym, ap, ap₂, ◌∙◌, arith, length, take, get_or, replicate}
use muir.Base.{
  length-append, take_prefix, length-reverse, get_or_last, get_or-append_right, ◌==◌, ==_refl, leb,
  ltb, not, ◌&&◌,
}
use mathlib.Core.List.{reverse-reverse, append-nil, append_assoc}
use muir.Base.{AllBelow}
use muir.Chaos.Check.{check_word}
use muir.Chaos.Frame.{
  word_bits, chunk_words, checked_words, frame, received, judge, split_words, Framed,
}
use muir.Chaos.Frame.{unframe, unframe_any, ok, pop, ends_low}
use muir.Chaos.Frame.Words.{length-word_bits, chunk_words-word_bits}
use muir.Chaos.Check.Residue.{check_word-lt}

abbrev pub framed_of : List ℕ → ℕ → Framed
framed_of buffer source = record {
  buffer = buffer;
  source = source;
  check = check_word (buffer ++ (source ∷ []));
  check_ok = true;
}

-- Popping undoes a push.
pop-snoc : (bits : List Bool) (b : Bool) → pop (bits ++ (b ∷ [])) ≡ bits
pop-snoc bits b =
    ap (λ n. take n (bits ++ (b ∷ []))) (omega (arith, length-append {0} bits (b ∷ [])))
    ∙ take_prefix (length bits) bits (b ∷ []) refl

ends_low-snoc : (bits : List Bool) → ends_low (bits ++ (false ∷ [])) ≡ true
ends_low-snoc bits =
    ap (λ n. not (get_or (bits ++ (false ∷ [])) n true))
      (omega (arith, length-append {0} bits (false ∷ [])))
    ∙ ap not (get_or_last (length bits) bits false true refl)

AllBelow-append : (n : ℕ) (xs ys : List ℕ) → AllBelow n xs → AllBelow n ys → AllBelow n (xs ++ ys)
AllBelow-append n [] ys h k = k
AllBelow-append n (x ∷ xs) ys h k = (h.0, AllBelow-append n xs ys h.1 k)

split_words-three :
    (xs : List ℕ) (s c : ℕ)
    → split_words (suc (suc (length xs))) ((xs ++ (s ∷ [])) ++ (c ∷ [])) ≡ (xs, s, c)
unfolding split_words
split_words-three xs s c =
    ap (λ all. split_words (suc (suc (length xs))) all) (append_assoc xs (s ∷ []) (c ∷ []))
    ∙ ap₂ (λ (front : List ℕ) (ends : ℕ × ℕ). (front, ends.0, ends.1))
        (take_prefix (length xs) xs (s ∷ c ∷ []) refl)
        (ap₂ (λ (x : ℕ) (y : ℕ). (x, y))
          (ap (λ n. get_or (xs ++ (s ∷ c ∷ [])) n 0) (omega arith)
            ∙ get_or-append_right (length xs) xs (s ∷ c ∷ []) 0 0 refl)
          (get_or-append_right (length xs) xs (s ∷ c ∷ []) 1 0 refl))

-- On a whole number of words `received` pads nothing.
received_whole :
    (bits : List Bool) (n : ℕ)
    → length bits ≡ 16 * n
    → received bits ≡ record {
      framed = judge (leb 3 n) (split_words n (chunk_words n (reverse bits)));
      bits = 16 * n;
    }
unfolding received
received_whole bits n e = λ i. record {
  framed = judge (flag i) (split_words (words i) (chunk_words (words i) (reverse (padded i))));
  bits = e i;
}
  where
    words : (length bits + 15) / 16 ≡ n
    words = omega arith

    none_left : (length bits + 15) / 16 * 16 - length bits ≡ 0
    none_left = omega arith

    padded : bits ++ replicate ((length bits + 15) / 16 * 16 - length bits) false ≡ bits
    padded = ap (λ k. bits ++ replicate k false) none_left ∙ append-nil bits

    flag : (length bits % 16 == 0 && leb 3 ((length bits + 15) / 16)) ≡ leb 3 n
    flag = ground (arith, words)

judge_self :
    (buffer : List ℕ) (source : ℕ)
    → judge true (buffer, source, check_word (buffer ++ (source ∷ []))) ≡ framed_of buffer source
unfolding judge
judge_self buffer source = λ i. record (framed_of buffer source) {
  check_ok = ==_refl (check_word (buffer ++ (source ∷ []))) i;
}

module _ (buffer : List ℕ) (source : ℕ) where
  all : List ℕ
  all = checked_words buffer source

  cells : List Bool
  unfolding all
  cells = reverse (word_bits all)

  length-all : length all ≡ suc (suc (length buffer))
  unfolding all
  length-all = omega (
    arith,
    length-append {0} buffer (source ∷ []),
    length-append {0} (buffer ++ (source ∷ [])) (check_word (buffer ++ (source ∷ [])) ∷ []),
  )

  length-cells : length cells ≡ 16 * suc (suc (length buffer))
  unfolding cells
  length-cells = length-reverse (word_bits all) ∙ length-word_bits all ∙ ap (λ n. 16 * n) length-all

  all-AllBelow : AllBelow (2 ^ 16) buffer → source < 2 ^ 16 → AllBelow (2 ^ 16) all
  unfolding all
  all-AllBelow h k =
      AllBelow-append (2 ^ 16) _ _ (AllBelow-append (2 ^ 16) buffer _ h (k, tt))
        (check_word-lt (buffer ++ (source ∷ [])), tt)

  chunk_words-cells :
      AllBelow (2 ^ 16) buffer
      → source < 2 ^ 16
      → chunk_words (suc (suc (length buffer))) (reverse cells) ≡ all
  unfolding cells
  chunk_words-cells h k =
      ap₂ chunk_words (sym length-all) (reverse-reverse (word_bits all))
      ∙ chunk_words-word_bits all (all-AllBelow h k)

  split-all :
      split_words (suc (suc (length buffer))) all
      ≡ (buffer, source, check_word (buffer ++ (source ∷ [])))
  unfolding all
  split-all = split_words-three buffer source (check_word (buffer ++ (source ∷ [])))

  -- What `received` makes of a packet's cells.
  received-cells :
      AllBelow (2 ^ 16) buffer
      → source < 2 ^ 16
      → 1 ≤ length buffer
      → received cells
        ≡ record { framed = framed_of buffer source; bits = 16 * suc (suc (length buffer)) }
  unfolding received
  received-cells h k pos =
      received_whole cells (suc (suc (length buffer))) length-cells
      ∙ ap (λ f. record { framed = f; bits = 16 * suc (suc (length buffer)) }) judged
    where
      three : leb 3 (suc (suc (length buffer))) ≡ true
      three = ground arith

      judged :
          judge (leb 3 (suc (suc (length buffer)))) (
            split_words
              (suc (suc (length buffer)))
              (chunk_words (suc (suc (length buffer))) (reverse cells)))
          ≡ framed_of buffer source
      judged =
          ap₂ judge three
            (ap (split_words (suc (suc (length buffer)))) (chunk_words-cells h k) ∙ split-all)
          ∙ judge_self buffer source

-- The trailing zero of a whole number of words is dropped.
unframe-snoc :
    (bits : List Bool) (n : ℕ)
    → length bits ≡ 16 * n
    → 3 ≤ n
    → unframe (bits ++ (false ∷ [])) ≡ ok (received bits).framed
unfolding unframe
unframe-snoc bits n e three = rw (odd, ends_low-snoc bits, pop-snoc bits, whole, long) refl
  where
    odd : (length (bits ++ (false ∷ [])) % 16 == 1) ≡ true
    odd = ground (arith, length-append {0} bits (false ∷ []))

    whole : (length bits % 16 == 0) ≡ true
    whole = ground arith

    long : ltb (length bits) (3 * 16) ≡ false
    long = ground arith

unframe_any-snoc : (bits : List Bool) → unframe_any (bits ++ (false ∷ [])) ≡ received bits
unfolding unframe_any
unframe_any-snoc bits = rw (ends_low-snoc bits, pop-snoc bits) refl

-- A frame of a buffer of words, destination last, is taken off the cable by `unframe` as that
-- buffer, the source that went in, and a check word that is the right one.
pub unframe-frame :
    (buffer : List ℕ) (source : ℕ)
    → AllBelow (2 ^ 16) buffer
    → source < 2 ^ 16
    → 1 ≤ length buffer
    → unframe (frame buffer source) ≡ ok (framed_of buffer source)
unfolding frame cells all
unframe-frame buffer source h k pos =
    unframe-snoc (cells buffer source) (suc (suc (length buffer))) (length-cells buffer source)
      (omega arith)
    ∙ ap (λ r. ok r.framed) (received-cells buffer source h k pos)

-- The receiver takes the same words, and counts their bits without the trailing zero.
pub unframe_any-frame :
    (buffer : List ℕ) (source : ℕ)
    → AllBelow (2 ^ 16) buffer
    → source < 2 ^ 16
    → 1 ≤ length buffer
    → unframe_any (frame buffer source)
      ≡ record { framed = framed_of buffer source; bits = 16 * suc (suc (length buffer)) }
unfolding frame cells all
unframe_any-frame buffer source h k pos =
    unframe_any-snoc (cells buffer source) ∙ received-cells buffer source h k pos
