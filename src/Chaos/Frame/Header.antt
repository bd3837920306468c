-- ===== src/Chaos/Frame/Header.antt =====
-- A receiver that decides before the run ends reads the addresses off the first cells.
use muir.Base.{ℕ, zero, suc, ◌+◌, ◌*◌, ◌^◌, ◌≤◌, ◌<◌, List, [], ◌∷◌, ◌++◌, reverse, Bool}
use muir.Base.{false, some, none, ◌≡◌, refl, sym, ap, ap₂, ◌∙◌, arith, length, take}
use muir.Base.{get_or, of_bool, length-append, length-reverse, get_or-append_right, leb}
use muir.Base.{if◌then◌else◌, get_or-take, length-take_of_le, length-take_all}
use mathlib.Core.List.{reverse-append, append_assoc, append-nil}
use muir.Base.Msb.{value}
use native.Mathlib.Nat.{mod-eq_of_lt}
use muir.Chaos.Check.{bits_down, check_word}
use muir.Chaos.Check.Digits.{length-bits_down, value-bits_down}
use muir.Chaos.Frame.{word_bits, wire_word, header_on_the_wire, frame}

-- Only the cells that are read matter.
wire_word-take :
    (bits : List Bool) (start n k : ℕ)
    → start + n ≤ k
    → wire_word (take k bits) start n ≡ wire_word bits start n
unfolding wire_word
wire_word-take bits start zero k h = refl
wire_word-take bits start (suc n) k h =
    ap₂ (λ a b. a + of_bool b * 2 ^ n) (wire_word-take bits start n k (omega arith))
      (get_or-take k bits (start + n) false (omega arith))

-- Cells that carry a word least-significant bit first give back the word.
wire_word-reverse :
    (pre bs post : List Bool)
    → wire_word (pre ++ (reverse bs ++ post)) (length pre) (length bs) ≡ value bs
unfolding wire_word
wire_word-reverse pre [] post = refl
wire_word-reverse pre (b ∷ bs) post =
    ap₂ (λ x y. x + of_bool y * 2 ^ length bs)
      (ap (λ t. wire_word t (length pre) (length bs)) regroup ∙ wire_word-reverse pre bs (b ∷ post))
      (ap (λ t. get_or t (length pre + length bs) false) regroup
        ∙ get_or-append_right (length pre) pre (reverse bs ++ (b ∷ post)) (length bs) false refl
        ∙ ap (λ n. get_or (reverse bs ++ (b ∷ post)) n false) (omega arith)
        ∙ get_or-append_right (length bs) (reverse bs) (b ∷ post) 0 false (length-reverse bs))
    ∙ omega arith
  where
    regroup : pre ++ (reverse (b ∷ bs) ++ post) ≡ pre ++ (reverse bs ++ (b ∷ post))
    regroup =
        ap (λ t. pre ++ (t ++ post)) (reverse-append (b ∷ []) bs)
        ∙ ap (λ t. pre ++ t) (append_assoc (reverse bs) (b ∷ []) post)

-- The last words of a list are the first cells of its reversed bits.
word_bits-append : (ws vs : List ℕ) → word_bits (ws ++ vs) ≡ word_bits ws ++ word_bits vs
unfolding word_bits
word_bits-append [] vs = refl
word_bits-append (w ∷ ws) vs =
    ap (λ t. bits_down 16 w ++ t) (word_bits-append ws vs)
    ∙ sym (append_assoc (bits_down 16 w) (word_bits ws) (word_bits vs))

reverse-snoc_word :
    (ws : List ℕ) (w : ℕ)
    → reverse (word_bits (ws ++ (w ∷ []))) ≡ reverse (bits_down 16 w) ++ reverse (word_bits ws)
unfolding word_bits
reverse-snoc_word ws w =
    ap reverse (word_bits-append ws (w ∷ []))
    ∙ reverse-append (word_bits ws) (bits_down 16 w ++ [])
    ∙ ap (λ t. reverse t ++ reverse (word_bits ws)) (append-nil (bits_down 16 w))

-- Three words at the end: check, source and destination come first, in that order.
front_words :
    (ws : List ℕ) (d s c : ℕ)
    → reverse (word_bits (((ws ++ (d ∷ [])) ++ (s ∷ [])) ++ (c ∷ []))) ++ (false ∷ [])
      ≡ reverse (bits_down 16 c)
        ++ (reverse (bits_down 16 s)
            ++ (reverse (bits_down 16 d) ++ (reverse (word_bits ws) ++ (false ∷ []))))
front_words ws d s c = simp reverse-snoc_word (simp append_assoc)

word_at :
    (pre : List Bool) (n w : ℕ) (post : List Bool)
    → length pre ≡ n
    → w < 2 ^ 16
    → wire_word (pre ++ (reverse (bits_down 16 w) ++ post)) n 16 ≡ w
word_at pre n w post e h =
    ap₂ (λ a b. wire_word (pre ++ (reverse (bits_down 16 w) ++ post)) a b) (sym e)
      (sym (length-bits_down 16 w))
    ∙ wire_word-reverse pre (bits_down 16 w) post
    ∙ value-bits_down 16 w
    ∙ mod-eq_of_lt h

length-cells16 : (w : ℕ) → length (reverse (bits_down 16 w)) ≡ 16
length-cells16 w = length-reverse (bits_down 16 w) ∙ length-bits_down 16 w

module _ (ws : List ℕ) (dest source : ℕ) (hs : source < 2 ^ 16) (hd : dest < 2 ^ 16) where
  check : ℕ
  check = check_word ((ws ++ (dest ∷ [])) ++ (source ∷ []))

  tail_cells : List Bool
  tail_cells = reverse (word_bits ws) ++ (false ∷ [])

  laid_out :
      frame (ws ++ (dest ∷ [])) source
      ≡ reverse (bits_down 16 check)
        ++ (reverse (bits_down 16 source) ++ (reverse (bits_down 16 dest) ++ tail_cells))
  unfolding frame check tail_cells
  laid_out = front_words ws dest source check

  source_cells : wire_word (frame (ws ++ (dest ∷ [])) source) 16 16 ≡ source
  source_cells =
      ap (λ t. wire_word t 16 16) laid_out
      ∙ word_at (reverse (bits_down 16 check)) 16 source (reverse (bits_down 16 dest) ++ tail_cells)
          (length-cells16 check) hs

  dest_cells : wire_word (frame (ws ++ (dest ∷ [])) source) 32 16 ≡ dest
  dest_cells =
      ap (λ t. wire_word t 32 16)
        (laid_out
          ∙ sym (
              append_assoc (reverse (bits_down 16 check)) (reverse (bits_down 16 source))
                (reverse (bits_down 16 dest) ++ tail_cells)))
      ∙ word_at (reverse (bits_down 16 check) ++ reverse (bits_down 16 source)) 32 dest tail_cells
          (omega (
            arith,
            length-append {0} (reverse (bits_down 16 check)) (reverse (bits_down 16 source)),
            length-cells16 check,
            length-cells16 source,
          ))
          hd

  length-frame : 48 ≤ length (frame (ws ++ (dest ∷ [])) source)
  length-frame = omega (
    arith,
    ap length laid_out,
    length-append {0} (reverse (bits_down 16 check))
        (reverse (bits_down 16 source) ++ (reverse (bits_down 16 dest) ++ tail_cells)),
    length-append {0} (reverse (bits_down 16 source)) (reverse (bits_down 16 dest) ++ tail_cells),
    length-append {0} (reverse (bits_down 16 dest)) tail_cells,
    length-cells16 check,
    length-cells16 source,
    length-cells16 dest,
  )

-- While a frame goes by, the addresses are known exactly from the 48th cell on, and they are the
-- source and the destination (the buffer's last word) that were framed.
pub header_on_the_wire-frame :
    (ws : List ℕ) (dest source k : ℕ)
    → source < 2 ^ 16
    → dest < 2 ^ 16
    → header_on_the_wire (take k (frame (ws ++ (dest ∷ [])) source))
      ≡ (if leb 48 k then some (source, dest) else none)
unfolding header_on_the_wire
header_on_the_wire-frame ws dest source k hs hd = ground (
  arith,
  source_cells ws dest source hs hd,
  dest_cells ws dest source hs hd,
  length-frame ws dest source hs hd,
  length-take_of_le k (frame (ws ++ (dest ∷ [])) source),
  length-take_all k (frame (ws ++ (dest ∷ [])) source),
  wire_word-take (frame (ws ++ (dest ∷ [])) source) 16 16 k,
  wire_word-take (frame (ws ++ (dest ∷ [])) source) 32 16 k,
)
