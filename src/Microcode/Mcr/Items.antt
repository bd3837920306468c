-- ===== src/Microcode/Mcr/Items.antt =====
-- What the reader of a microcode file's items gives, and how much of the file it takes.
use muir.Base.{ℕ, zero, suc, ◌+◌, ◌/◌, ◌^◌, ◌≤◌, ◌<◌, ◌≡◌, ◌≢◌, refl, arith}
use muir.Base.{Bool, true, false, List, length, take, drop, leb, All, ap, not, ◌==◌}
use muir.Base.{bit_or, ◌<<<◌, if◌then◌else◌, length-drop}
use native.Mathlib.Nat.{mod-lt}
use muir.Processor.Isa.{Insn}
use muir.Microcode.{
  Error, Result, ok, err, Ensures, Ensures-bind, Ensures-refuse, out_of_fuel, short_read,
  bits_above_48, high_word,
}
use muir.Microcode.Mcr.{take_bytes, u32_pdp, u16_le, read_insn, times, wide_word, wide_words}

-- What is left is at least `k` bytes shorter.
abbrev pub Shorter {ℓ} : {A : Type ℓ} → ℕ → List ℕ → A × List ℕ → Type 0
Shorter k r (a, r') = length r' + k ≤ length r

Ensures-test {ℓ} :
    {A : Type ℓ} (P : A → Type 0) (b : Bool) (a : A) (e : Error)
    → (b ≡ true → P a)
    → e ≢ out_of_fuel
    → Ensures P (if b then ok a else err e)
Ensures-test P true a e h ne = h refl
Ensures-test P false a e h ne = ne

take_bytes-Shorter : (n : ℕ) (r : List ℕ) → Ensures (Shorter n r) (take_bytes n r)
unfolding take_bytes
take_bytes-Shorter n r =
    Ensures-test (Shorter n r) (leb n (length r)) (take n r, drop n r) (short_read n)
      (λ e. ground (arith, length-drop {0} n r)) (λ q. cc)

pub u32_pdp-Shorter : (r : List ℕ) → Ensures (Shorter 4 r) (u32_pdp r)
unfolding u32_pdp
u32_pdp-Shorter r =
    Ensures-bind (Shorter 4 r) (Shorter 4 r) (take_bytes 4 r) _ (take_bytes-Shorter 4 r) (λ x h. h)

u16_le-Shorter : (r : List ℕ) → Ensures (Shorter 2 r) (u16_le r)
unfolding u16_le
u16_le-Shorter r =
    Ensures-bind (Shorter 2 r) (Shorter 2 r) (take_bytes 2 r) _ (take_bytes-Shorter 2 r) (λ x h. h)

-- A microinstruction of 48 bits, and no more bytes left than there were.
abbrev pub InsnRead : List ℕ → Insn × List ℕ → Type 0
InsnRead r (i, r') = (i.raw < 2 ^ 48) × (length r' ≤ length r)

pub read_insn-InsnRead : (r : List ℕ) → Ensures (InsnRead r) (read_insn r)
unfolding read_insn
read_insn-InsnRead r =
    Ensures-bind (InsnRead r) (Shorter 2 r) (u16_le r) _ (u16_le-Shorter r) (λ (w1, r1) h1.
      Ensures-bind (InsnRead r) (Shorter 2 r1) (u16_le r1) _ (u16_le-Shorter r1) (λ (w2, r2) h2.
        Ensures-bind (InsnRead r) (Shorter 2 r2) (u16_le r2) _ (u16_le-Shorter r2) (λ (w3, r3) h3.
          Ensures-bind (InsnRead r) (Shorter 2 r3) (u16_le r3) _ (u16_le-Shorter r3) (λ (w4, r4) h4.
            Ensures-refuse (InsnRead r) (not (w1 == 0)) (bits_above_48 w1) _ (λ q. cc)
              (λ e. (
                mod-lt (bit_or (bit_or (w2 <<< 32) (w3 <<< 16)) w4) (omega arith),
                omega arith,
              ))))))

-- So many items, `P` of each, and no more bytes left than there were.
abbrev pub Items {ℓ} : {A : Type ℓ} → (A → Type 0) → ℕ → List ℕ → List A × List ℕ → Type 0
Items P n r (xs, r') = (length xs ≡ n) × All P xs × (length r' ≤ length r)

pub times-Items {ℓ} :
    {A : Type ℓ} (P : A → Type 0) (item : List ℕ → Result (A × List ℕ))
    → ((r : List ℕ) → Ensures (λ x. P x.0 × (length x.1 ≤ length r)) (item r))
    → (n : ℕ) (r : List ℕ) → Ensures (Items P n r) (times n item r)
unfolding times
times-Items P item h zero r = (refl, tt, omega arith)
times-Items P item h (suc n) r = Ensures-bind (Items P (suc n) r) _ (item r) _ (h r) (λ (a, r1) h1.
    Ensures-bind (Items P (suc n) r) (Items P n r1) (times n item r1) _ (times-Items P item h n r1)
      (λ (more, r2) h2. (ap suc h2.0, (h1.0, h2.1), omega (arith, h1.1, h2.2))))

pub u32_item : (r : List ℕ) → Ensures (λ x. Unit {0} × (length x.1 ≤ length r)) (u32_pdp r)
u32_item r = weaken (u32_pdp r) (u32_pdp-Shorter r)
  where
    weaken :
        (x : Result (ℕ × List ℕ))
        → Ensures (Shorter 4 r) x
        → Ensures (λ y. Unit {0} × (length y.1 ≤ length r)) x
    weaken (ok (v, r')) h = (tt, omega arith)
    weaken (err e) h = h

wide_word-item :
    (at : ℕ) (r : List ℕ) → Ensures (λ x. Unit {0} × (length x.1 ≤ length r)) (wide_word at r)
unfolding wide_word
wide_word-item at r =
    let P = λ (x : ℕ × List ℕ). Unit {0} × (length x.1 ≤ length r) in
    Ensures-bind P (Shorter 4 r) (u32_pdp r) _ (u32_pdp-Shorter r) (λ (low, r1) h1.
      Ensures-bind P (Shorter 4 r1) (u32_pdp r1) _ (u32_pdp-Shorter r1) (λ (high, r2) h2.
        Ensures-refuse P (not (high / 2 ^ 8 == 0)) (high_word at high) _ (λ q. cc)
          (λ e. (tt, omega arith))))

pub wide_words-Items :
    (at n : ℕ) (r : List ℕ) → Ensures (Items (λ w. Unit {0}) n r) (wide_words at n r)
unfolding wide_words
wide_words-Items at zero r = (refl, tt, omega arith)
wide_words-Items at (suc n) r =
    let P = Items (λ (w : ℕ). Unit {0}) (suc n) r in
    Ensures-bind P _ (wide_word at r) _ (wide_word-item at r) (λ (a, r1) h1.
      Ensures-bind P _ (wide_words (at + 1) n r1) _ (wide_words-Items (at + 1) n r1)
        (λ (more, r2) h2. (ap suc h2.0, (tt, h2.1), omega (arith, h1.1, h2.2))))
