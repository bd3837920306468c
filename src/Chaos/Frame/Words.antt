-- ===== src/Chaos/Frame/Words.antt =====
-- The words of a packet and the bits that carry them.
use muir.Base.{ℕ, suc, ◌+◌, ◌*◌, ◌%◌, ◌^◌, ◌≤◌, ◌<◌, List, [], ◌∷◌, Bool}
use muir.Base.{◌≡◌, refl, ap, ap₂, ◌∙◌, arith, length, of_bool}
use muir.Base.{length-append, take_prefix, drop_prefix, bit_or}
use muir.Base.Bits.{bit_or-disjoint}
use muir.Base.Msb.{value}
use native.Mathlib.Nat.{pow-suc, one-le-pow, mod-eq_of_lt}
use muir.Base.{AllBelow}
use muir.Chaos.Check.{bits_down}
use muir.Chaos.Check.Digits.{length-bits_down, value-bits_down}
use muir.Chaos.Frame.{word_bits, fold_word, chunk_words}

pub length-word_bits : (ws : List ℕ) → length (word_bits ws) ≡ 16 * length ws
unfolding word_bits
length-word_bits [] = refl
length-word_bits (w ∷ ws) =
    length-append (bits_down 16 w) (word_bits ws)
    ∙ omega (arith, length-bits_down 16 w, length-word_bits ws)

le-mul : (w p : ℕ) → 1 ≤ p → w ≤ w * p
le-mul w p h = grind arith

push_bit :
    (w : ℕ) (b : Bool)
    → 2 * w < 2 ^ 16
    → bit_or (w * 2 ^ 1 % 2 ^ 16) (of_bool b) ≡ 2 * w + of_bool b
push_bit w b h =
    ap (λ x. bit_or x (of_bool b)) (mod-eq_of_lt {n = w * 2 ^ 1} (omega arith))
    ∙ bit_or-disjoint 1 w (of_bool b) (ground arith)
    ∙ omega arith

shifted_small : (w k v : ℕ) → w * 2 ^ suc k + v < 2 ^ 16 → 2 * w < 2 ^ 16
shifted_small w k v h =
    omega
      (arith, ap (λ (t : ℕ). w * t) (pow-suc 2 k), le-mul w (2 ^ k) (one-le-pow k 2 (omega arith)))

-- The fold is the number that the bits stand for, as long as it fits the word.
fold_word-eq :
    (w : ℕ) (bs : List Bool)
    → w * 2 ^ length bs + value bs < 2 ^ 16
    → fold_word w bs ≡ w * 2 ^ length bs + value bs
unfolding fold_word
fold_word-eq w [] h = omega arith
fold_word-eq w (b ∷ bs) h =
    ap (λ x. fold_word x bs) (push_bit w b small)
    ∙ fold_word-eq (2 * w + of_bool b) bs (omega (arith, regroup))
    ∙ regroup
  where
    regroup :
        (2 * w + of_bool b) * 2 ^ length bs + value bs
        ≡ w * 2 ^ suc (length bs) + (of_bool b * 2 ^ length bs + value bs)
    regroup = omega (arith, ap (λ (t : ℕ). w * t) (pow-suc 2 (length bs)))

    small : 2 * w < 2 ^ 16
    small = shifted_small w (length bs) _ h

pub fold_word-bits_down : (w : ℕ) → w < 2 ^ 16 → fold_word 0 (bits_down 16 w) ≡ w
fold_word-bits_down w h = fold_word-eq 0 bs (omega (arith, val)) ∙ omega (arith, val)
  where
    bs : List Bool
    bs = bits_down 16 w

    val : value (bits_down 16 w) ≡ w
    val = value-bits_down 16 w ∙ mod-eq_of_lt h

pub chunk_words-word_bits :
    (ws : List ℕ) → AllBelow (2 ^ 16) ws → chunk_words (length ws) (word_bits ws) ≡ ws
unfolding chunk_words word_bits
chunk_words-word_bits [] h = refl
chunk_words-word_bits (w ∷ ws) h =
    ap₂ ◌∷◌
      (ap (fold_word 0) (take_prefix 16 (bits_down 16 w) (word_bits ws) (length-bits_down 16 w))
        ∙ fold_word-bits_down w h.0)
      (ap (chunk_words (length ws))
          (drop_prefix 16 (bits_down 16 w) (word_bits ws) (length-bits_down 16 w))
        ∙ chunk_words-word_bits ws h.1)
