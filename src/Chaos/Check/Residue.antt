-- ===== src/Chaos/Check/Residue.antt =====
-- A packet followed by its own check word leaves the register clear.
use muir.Base.{ℕ, ◌*◌, ◌%◌, ◌^◌, ◌<◌, List, [], ◌∷◌, ◌++◌, Bool, true, false, xor}
use muir.Base.{◌≡◌, refl, sym, ap, ◌∙◌, arith, length, length-append, bit}
use muir.Base.Bits.{bit_xor-lt}
use muir.Base.Msb.{value, value-lt, value-snoc, AllFalse, AllFalse-snoc, value-AllFalse}
use mathlib.Core.List.{append_assoc, append-nil}
use native.Mathlib.Nat.{mod-eq_of_lt}
use muir.Chaos.Check.{bits_down, check_step, check_bits, check_next, check_from, check_word, taps}
use muir.Chaos.Check.Digits.{length-bits_down, value-bits_down}

-- Every step leaves a register of sixteen bits.
pub check_step-lt : (r : ℕ) (d : Bool) → check_step r d < 2 ^ 16
unfolding check_step xor
check_step-lt r d = ground (arith, bit_xor-lt 16 (r * 2 % 2 ^ 16) taps)

top_bit : (b : Bool) (bs : List Bool) → length bs ≡ 15 → bit (value (b ∷ bs)) 15 ≡ b
top_bit true bs e = ground (arith, value-lt bs, ap (λ (n : ℕ). 2 ^ n) e)
top_bit false bs e = ground (arith, value-lt bs, ap (λ (n : ℕ). 2 ^ n) e)

-- A bit equal to the register's top bit shifts the register and adds nothing.
step_cancels :
    (b : Bool) (bs : List Bool)
    → length bs ≡ 15
    → check_step (value (b ∷ bs)) b ≡ value (bs ++ (false ∷ []))
unfolding check_step xor
step_cancels b bs e = ground (arith, top_bit b bs e, value-lt bs, value-snoc bs false)

-- Feeding the register its own bits, top bit first, empties it.
feed_own_bits :
    (bs zs : List Bool)
    → length (bs ++ zs) ≡ 16
    → AllFalse zs
    → check_bits (value (bs ++ zs)) bs ≡ 0
unfolding check_bits
feed_own_bits [] zs e h = value-AllFalse zs h
feed_own_bits (b ∷ bs) zs e h =
    ap (λ r. check_bits r bs)
      (step_cancels b (bs ++ zs) (omega arith) ∙ ap value (append_assoc bs zs (false ∷ [])))
    ∙ feed_own_bits bs (zs ++ (false ∷ []))
        (ap length (sym (append_assoc bs zs (false ∷ [])))
          ∙ omega (arith, length-append {0} (bs ++ zs) (false ∷ [])))
        (AllFalse-snoc zs h)

pub check_bits-lt : (r : ℕ) (ds : List Bool) → r < 2 ^ 16 → check_bits r ds < 2 ^ 16
unfolding check_bits
check_bits-lt r [] h = h
check_bits-lt r (d ∷ ds) h = check_bits-lt (check_step r d) ds (check_step-lt r d)

check_next-lt : (r w : ℕ) → r < 2 ^ 16 → check_next r w < 2 ^ 16
unfolding check_next
check_next-lt r w h = check_bits-lt r (bits_down 16 w) h

pub check_from-lt : (r : ℕ) (ws : List ℕ) → r < 2 ^ 16 → check_from r ws < 2 ^ 16
unfolding check_from
check_from-lt r [] h = h
check_from-lt r (w ∷ ws) h = check_from-lt (check_next r w) ws (check_next-lt r w h)

-- A register fed its own sixteen bits is empty.
feed_itself : (r : ℕ) → r < 2 ^ 16 → check_bits r (bits_down 16 r) ≡ 0
feed_itself r h =
    ap (λ x. check_bits x bs)
      (sym (ap value (append-nil bs) ∙ value-bits_down 16 r ∙ mod-eq_of_lt h))
    ∙ feed_own_bits bs [] (ap length (append-nil bs) ∙ length-bits_down 16 r) tt
  where
    bs : List Bool
    bs = bits_down 16 r

check_from-append :
    (r : ℕ) (ws vs : List ℕ) → check_from r (ws ++ vs) ≡ check_from (check_from r ws) vs
unfolding check_from
check_from-append r [] vs = refl
check_from-append r (w ∷ ws) vs = check_from-append (check_next r w) ws vs

pub check_word-eq : (ws : List ℕ) → check_word ws ≡ check_from 0 ws
unfolding check_word
check_word-eq ws = mod-eq_of_lt (check_from-lt 0 ws (omega arith))

-- The words of any packet followed by their own check word have the check word zero: a receiver
-- that divides the whole packet, check word included, finds the register clear.
pub check_word_residue : (ws : List ℕ) → check_word (ws ++ (check_word ws ∷ [])) ≡ 0
check_word_residue ws =
    check_word-eq _
    ∙ check_from-append 0 ws (check_word ws ∷ [])
    ∙ ap (λ c. check_from (check_from 0 ws) (c ∷ [])) (check_word-eq ws)
    ∙ (unfold check_from check_next in
        feed_itself (check_from 0 ws) (check_from-lt 0 ws (omega arith)))

pub check_word-lt : (ws : List ℕ) → check_word ws < 2 ^ 16
unfolding check_word
check_word-lt ws = omega arith
