-- ===== src/Machine/MacroDispatch/Copies.antt =====
-- The register's fields, and the base copies that follow the words it names.
use muir.Base.{ℕ, ◌+◌, ◌*◌, ◌/◌, ◌%◌, ◌^◌, List, [], ◌∷◌, true, ◌≡◌, refl, ap, ◌∙◌}
use muir.Base.{ap₂, arith, bit, bit_or, ◌==◌, if◌then◌else◌}
use muir.Base.Bits.{bit_or-disjoint}
use muir.Machine.MacroDispatch.{
  MacroDispatch, register_word, main, localp_address, ap_address, write,
}
use muir.Machine.MacroDispatch.{to_register, a_written, register_bits}

pub register_word-eq :
    (m l a : ℕ)
    → register_word m l a ≡ 2 ^ 31 + a % 2 ^ 5 * 2 ^ 24 + l % 2 ^ 10 * 2 ^ 14 + m % 2 ^ 14
unfolding register_word
register_word-eq m l a =
    ap (λ x. bit_or (bit_or x (l % 2 ^ 10 * 2 ^ 14)) (m % 2 ^ 14)) first
    ∙ ap (λ x. bit_or x (m % 2 ^ 14)) second
    ∙ third
  where
    first : bit_or (1 * 2 ^ 31) (a % 2 ^ 5 * 2 ^ 24) ≡ 2 ^ 31 + a % 2 ^ 5 * 2 ^ 24
    first = omega (arith, bit_or-disjoint 31 1 (a % 2 ^ 5 * 2 ^ 24) (omega arith))

    second :
        bit_or (2 ^ 31 + a % 2 ^ 5 * 2 ^ 24) (l % 2 ^ 10 * 2 ^ 14)
        ≡ 2 ^ 31 + a % 2 ^ 5 * 2 ^ 24 + l % 2 ^ 10 * 2 ^ 14
    second =
        ap (λ x. bit_or x (l % 2 ^ 10 * 2 ^ 14)) (omega arith)
        ∙ bit_or-disjoint 24 (2 ^ 7 + a % 2 ^ 5) (l % 2 ^ 10 * 2 ^ 14) (omega arith)
        ∙ omega arith

    third :
        bit_or (2 ^ 31 + a % 2 ^ 5 * 2 ^ 24 + l % 2 ^ 10 * 2 ^ 14) (m % 2 ^ 14)
        ≡ 2 ^ 31 + a % 2 ^ 5 * 2 ^ 24 + l % 2 ^ 10 * 2 ^ 14 + m % 2 ^ 14
    third =
        ap (λ x. bit_or x (m % 2 ^ 14)) (omega arith)
        ∙ bit_or-disjoint 14 (2 ^ 17 + a % 2 ^ 5 * 2 ^ 10 + l % 2 ^ 10) (m % 2 ^ 14) (omega arith)
        ∙ omega arith

-- The word that `word` makes, written to the register, enables it and names the main loop and
-- the two base words that it was made of.
pub write-register_word :
    (d : MacroDispatch) (m l a : ℕ)
    → let r = (write d to_register (register_word m l a)).register in
      (bit r 31 ≡ true)
      × (main r ≡ m % 2 ^ 14)
      × (localp_address r ≡ l % 2 ^ 10)
      × (ap_address r ≡ a % 2 ^ 5)
unfolding write
write-register_word d m l a =
    let w = register_word m l a in
    let kept : register_bits w ≡ w = omega (
      arith,
      register_word-eq m l a,
      bit_or-disjoint 31 (w / 2 ^ 31 % 2 ^ 1) (w % 2 ^ 29) (omega arith),
    ) in
    let top : register_bits w / 2 ^ 31 % 2 ≡ 1 = omega (arith, kept, register_word-eq m l a) in
    (
      ap (λ x. x == 1) top,
      omega (arith, kept, register_word-eq m l a),
      omega (arith, kept, register_word-eq m l a),
      omega (arith, kept, register_word-eq m l a),
    )

-- Writes of A memory in turn, each an address and a word.
abbrev pub a_writes : MacroDispatch → List (ℕ × ℕ) → MacroDispatch
a_writes d [] = d
a_writes d ((adr, v) ∷ rest) = a_writes (a_written d adr v) rest

-- The word last written at an address, or what was there.
abbrev pub last_at : ℕ → ℕ → List (ℕ × ℕ) → ℕ
last_at adr old [] = old
last_at adr old ((j, v) ∷ rest) = last_at adr (if j == adr then v % 2 ^ 14 else old) rest

a_written-fields :
    (d : MacroDispatch) (adr v : ℕ)
    → ((a_written d adr v).register ≡ d.register)
      × ((a_written d adr v).localp
          ≡ (if adr == localp_address d.register then v % 2 ^ 14 else d.localp))
unfolding a_written
a_written-fields d adr v = ground arith

-- The copy of A-LOCALP follows A memory: after any writes it is the fourteen low bits of the last
-- word written at the address that the register names, or what it was if none was.
pub a_writes-localp :
    (d : MacroDispatch) (ws : List (ℕ × ℕ))
    → (a_writes d ws).localp ≡ last_at (localp_address d.register) d.localp ws
a_writes-localp d [] = refl
a_writes-localp d ((adr, v) ∷ ws) =
    let f = a_written-fields d adr v in
    a_writes-localp (a_written d adr v) ws ∙ ap₂ (λ r x. last_at (localp_address r) x ws) f.0 f.1
