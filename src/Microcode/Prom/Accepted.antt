-- ===== src/Microcode/Prom/Accepted.antt =====
-- What the two readers of boot PROMs accept.
use muir.Base.{ℕ, ◌+◌, ◌-◌, ◌^◌, ◌≤◌, ◌<◌, ◌≡◌, ◌≢◌, refl, arith, Bool, true, false}
use muir.Base.{List, [], ◌∷◌, Option, none, some, All, length, take, drop, replicate, not, ltb, leb}
use muir.Base.{
  All-append, All-take, All-drop, All-replicate, length-append, length-replicate, subst, map,
}
use muir.Base.{length-take_all, ◌==◌, ◌⊎◌, inl, inr, if◌then◌else◌, length-drop}
use muir.Machine.Geometry.{quux_prom_base}
use muir.Processor.Isa.{Insn, insn}
use muir.Microcode.{
  Error, Result, ok, ◌>>◌, Ensures, Ensures-bind, Ensures-refuse, out_of_fuel, no_program,
  too_many_words, not_at_zero, statistics_bit, below_base, nothing_at_base,
}
use muir.Microcode.Mcr.{parse, parse_partition_order}
use muir.Microcode.Mcr.Bounds.{IsParsed, parse-Ensures}
use muir.Microcode.Mcr.Order.{parse_partition_order-Ensures}
use muir.Microcode.Prom.{
  prom_words, position, has_statistics, is_set, refuse_at, resize, parse_mcr, parse_quux_mcr,
  programming, unprogramming,
}
use muir.Microcode.Prom.Burned.{Burnable, unprogramming-image}

-- Every word of the PROM, each of which can be burned.
pub record IsProm (v : List Insn) : Type 0 where
  pub words_counted : length v ≡ prom_words
  pub words_burnable : All Burnable v

position-none :
    (test : Insn → Bool) (at : ℕ) (is : List Insn)
    → position test at is ≡ none
    → All (λ i. test i ≡ false) is
position-none test at [] e = tt
position-none test at (i ∷ is) e = go (test i) refl e (position-none test (at + 1) is)
  where
    go :
        (b : Bool)
        → test i ≡ b
        → (if b then some at else position test (at + 1) is) ≡ none
        → (position test (at + 1) is ≡ none → All (λ j. test j ≡ false) is)
        → (test i ≡ false) × All (λ j. test j ≡ false) is
    go true t n rest = cc
    go false t n rest = (t, rest n)

refuse_at-Ensures {ℓ} :
    {A : Type ℓ} (P : A → Type 0) (o : Option ℕ) (e : ℕ → Error) (x : Result A)
    → ((at : ℕ) → e at ≢ out_of_fuel)
    → (o ≡ none → Ensures P x)
    → Ensures P (refuse_at o e >> x)
refuse_at-Ensures P none e x ne h = h refl
refuse_at-Ensures P (some at) e x ne h = ne at

burnable :
    (is : List Insn)
    → All (λ i. i.raw < 2 ^ 48) is
    → All (λ i. has_statistics i ≡ false) is
    → All Burnable is
burnable [] f s = tt
burnable (i ∷ is) f s = ((f.0, s.0), burnable is f.1 s.1)

-- A program no longer than the PROM, padded with zeros.
resize-IsProm : (v : List Insn) → length v ≤ prom_words → All Burnable v → IsProm (resize v)
resize-IsProm v h b = record {
  words_counted = omega (
    arith,
    length-append {0} (take prom_words v) (replicate (prom_words - length v) (insn 0)),
    length-take_all prom_words v h,
    length-replicate (prom_words - length v) (insn 0),
  );
  words_burnable =
      All-append Burnable (take prom_words v) _ (All-take Burnable prom_words v b)
        (All-replicate Burnable (prom_words - length v) (insn 0) (omega arith, refl));
}

parse_mcr-Ensures : (bytes : List ℕ) → Ensures IsProm (parse_mcr bytes)
unfolding parse_mcr
parse_mcr-Ensures bytes = Ensures-bind IsProm IsParsed (parse bytes) _ (parse-Ensures bytes) (λ m v.
    Ensures-refuse IsProm (length m.imem == 0) no_program _ (λ q. cc)
      (λ some_words.
        Ensures-refuse IsProm (ltb prom_words (length m.imem)) (too_many_words (length m.imem)) _
          (λ q. cc)
          (λ few.
            Ensures-refuse IsProm (not (m.imem_start == 0)) (not_at_zero m.imem_start) _ (λ q. cc)
              (λ zero_start.
                refuse_at-Ensures IsProm (position has_statistics 0 m.imem) statistics_bit _
                  (λ at q. cc)
                  (λ none_set. resize-IsProm m.imem (ground arith) (
                    burnable m.imem v.imem_fits
                      (position-none has_statistics 0 m.imem none_set)))))))

-- A file that `--prom` takes gives a whole boot PROM of burnable words.
pub parse_mcr-IsProm : (bytes : List ℕ) (v : List Insn) → parse_mcr bytes ≡ ok v → IsProm v
parse_mcr-IsProm bytes v e = subst (Ensures IsProm) e (parse_mcr-Ensures bytes)

parse_quux_mcr-Ensures : (bytes : List ℕ) → Ensures IsProm (parse_quux_mcr bytes)
unfolding parse_quux_mcr
parse_quux_mcr-Ensures bytes =
    Ensures-bind IsProm IsParsed (parse_partition_order bytes) _
      (parse_partition_order-Ensures bytes)
      (λ m v.
        Ensures-refuse IsProm (not (m.imem_start == 0)) (not_at_zero m.imem_start) _ (λ q. cc)
          (λ at_zero.
            Ensures-refuse IsProm (ltb (quux_prom_base + prom_words) (length m.imem))
              (too_many_words (length m.imem)) _ (λ q. cc)
              (λ few.
                refuse_at-Ensures IsProm (position is_set 0 (take quux_prom_base m.imem)) below_base
                  _ (λ at q. cc)
                  (λ clear.
                    Ensures-refuse IsProm (leb (length m.imem) quux_prom_base)
                      (nothing_at_base (length m.imem)) _ (λ q. cc)
                      (λ reaches.
                        refuse_at-Ensures IsProm
                          (position has_statistics quux_prom_base (drop quux_prom_base m.imem))
                          statistics_bit _ (λ at q. cc)
                          (λ none_set.
                            let v' = drop quux_prom_base m.imem in
                            resize-IsProm v' (ground (arith, length-drop {0} quux_prom_base m.imem))
                              (burnable v' (All-drop _ quux_prom_base m.imem v.imem_fits)
                                (position-none has_statistics quux_prom_base v' none_set))))))))

-- A file in partition order that a QUUX takes gives a whole boot PROM of burnable words.
pub parse_quux_mcr-IsProm :
    (bytes : List ℕ) (v : List Insn) → parse_quux_mcr bytes ≡ ok v → IsProm v
parse_quux_mcr-IsProm bytes v e = subst (Ensures IsProm) e (parse_quux_mcr-Ensures bytes)

-- A boot PROM that either reader accepts is 1,024 words, and reads the same from its chips: each
-- word burned and read back is the word.
pub accepted-burned :
    (bytes : List ℕ) (v : List Insn)
    → (parse_mcr bytes ≡ ok v) ⊎ (parse_quux_mcr bytes ≡ ok v)
    → (length v ≡ prom_words) × (map unprogramming (map programming v) ≡ v)
accepted-burned bytes v (inl e) =
    let h = parse_mcr-IsProm bytes v e in (h.words_counted, unprogramming-image v h.words_burnable)
accepted-burned bytes v (inr e) =
    let h = parse_quux_mcr-IsProm bytes v e in
    (h.words_counted, unprogramming-image v h.words_burnable)
