-- ===== src/Microcode/Mcr/Bounds.antt =====
-- `parse` comes to an end on every file, and what it gives fits the memories that it is for.
use muir.Base.{ℕ, zero, suc, ◌+◌, ◌^◌, ◌≤◌, ◌<◌, ◌≡◌, ◌≢◌, ◌⊎◌, inl, inr, refl, arith}
use muir.Base.{false, List, length, leb, ltb, All, not, ◌==◌, ◌&&◌}
use muir.Base.{subst}
use muir.Microcode.{
  Result, ok, err, Ensures, Ensures-bind, Ensures-refuse, out_of_fuel, past_control_store,
  bad_dispatch_size, a_memory_start,
}
use muir.Microcode.Mcr.{
  Mcr, default_mcr, u32_pdp, read_insn, times, wide_words, Next, go_on, stop, imem_section,
  dmem_section, main_section, amem_section, wide_section, section, one_section, sections, parse,
}
use muir.Microcode.Mcr.Items.{
  Shorter, u32_pdp-Shorter, read_insn-InsnRead, times-Items, u32_item, wide_words-Items,
}

-- The control store and its addresses, the dispatch memory's two sizes or none, and A memory's
-- addresses.
pub record IsParsed (m : Mcr) : Type 0 where
  pub imem_in_range : m.imem_start + length m.imem ≤ 0o40000
  pub imem_fits : All (λ i. i.raw < 2 ^ 48) m.imem
  pub dmem_sized : (length m.dmem ≡ 0) ⊎ ((length m.dmem ≡ 0o4000) ⊎ (length m.dmem ≡ 0o10000))
  pub amem_in_range : m.amem_start < 0o2000

-- What a section leaves of `r`: a file in range, and before another section fewer bytes.
abbrev Follows : List ℕ → Next → Type 0
Follows r (go_on m r') = IsParsed m × (length r' ≤ length r)
Follows r (stop m r') = IsParsed m

dispatch_sizes :
    (size n : ℕ)
    → n ≡ size
    → not (size == 0o4000) && not (size == 0o10000) ≡ false
    → (n ≡ 0o4000) ⊎ (n ≡ 0o10000)
dispatch_sizes size n e h = ground arith

section-Follows :
    (code : ℕ) (m : Mcr) (start size : ℕ) (r : List ℕ)
    → IsParsed m
    → Ensures (Follows r) (section code m start size r)
unfolding section imem_section dmem_section main_section amem_section wide_section
section-Follows zero m start size r v = λ q. cc
section-Follows (suc zero) m start size r v =
    Ensures-refuse (Follows r) (ltb 0o40000 (start + size)) (past_control_store start size) _
      (λ q. cc)
      (λ e.
        Ensures-bind (Follows r) _ (times size read_insn r) _
          (times-Items (λ i. i.raw < 2 ^ 48) read_insn read_insn-InsnRead size r)
          (λ (words, r') h. (
            record {
              imem_in_range = ground (arith, h.0);
              imem_fits = h.1;
              dmem_sized = v.dmem_sized;
              amem_in_range = v.amem_in_range;
            },
            h.2,
          )))
section-Follows (suc (suc zero)) m start size r v =
    Ensures-refuse (Follows r) (not (size == 0o4000) && not (size == 0o10000))
      (bad_dispatch_size size) _ (λ q. cc)
      (λ e.
        Ensures-bind (Follows r) _ (times size u32_pdp r) _
          (times-Items (λ w. Unit {0}) u32_pdp u32_item size r)
          (λ (words, r') h. (
            record {
              imem_in_range = v.imem_in_range;
              imem_fits = v.imem_fits;
              dmem_sized = inr (dispatch_sizes size (length words) h.0 e);
              amem_in_range = v.amem_in_range;
            },
            h.2,
          )))
section-Follows (suc (suc (suc zero))) m start size r v =
    Ensures-bind (Follows r) (Shorter 4 r) (u32_pdp r) _ (u32_pdp-Shorter r) (λ (a, r') h. (
      record {
        imem_in_range = v.imem_in_range;
        imem_fits = v.imem_fits;
        dmem_sized = v.dmem_sized;
        amem_in_range = v.amem_in_range;
      },
      omega arith,
    ))
section-Follows (suc (suc (suc (suc zero)))) m start size r v =
    Ensures-refuse (Follows r) (leb 0o2000 start) (a_memory_start start) _ (λ q. cc)
      (λ e.
        Ensures-bind (Follows r) _ (times size u32_pdp r) _
          (times-Items (λ w. Unit {0}) u32_pdp u32_item size r)
          (λ x h. record {
            imem_in_range = v.imem_in_range;
            imem_fits = v.imem_fits;
            dmem_sized = v.dmem_sized;
            amem_in_range = ground arith;
          }))
section-Follows (suc (suc (suc (suc (suc zero))))) m start size r v =
    Ensures-refuse (Follows r) (leb 0o2000 start) (a_memory_start start) _ (λ q. cc)
      (λ e.
        Ensures-bind (Follows r) _ (wide_words start size r) _ (wide_words-Items start size r)
          (λ x h. record {
            imem_in_range = v.imem_in_range;
            imem_fits = v.imem_fits;
            dmem_sized = v.dmem_sized;
            amem_in_range = ground arith;
          }))
section-Follows (suc (suc (suc (suc (suc (suc code)))))) m start size r v = λ q. cc

abbrev Fewer : List ℕ → Next → Type 0
Fewer r (go_on m r') = IsParsed m × (length r' < length r)
Fewer r (stop m r') = IsParsed m

Follows-Fewer :
    (r r' : List ℕ) (x : Result Next)
    → length r' < length r
    → Ensures (Follows r') x
    → Ensures (Fewer r) x
Follows-Fewer r r' (ok (go_on m r'')) h f = (f.0, omega (arith, f.1))
Follows-Fewer r r' (ok (stop m r'')) h f = f
Follows-Fewer r r' (err e) h f = f

one_section-Fewer : (m : Mcr) (r : List ℕ) → IsParsed m → Ensures (Fewer r) (one_section m r)
unfolding one_section
one_section-Fewer m r v =
    Ensures-bind (Fewer r) (Shorter 4 r) (u32_pdp r) _ (u32_pdp-Shorter r) (λ (code, r1) h1.
      Ensures-bind (Fewer r) (Shorter 4 r1) (u32_pdp r1) _ (u32_pdp-Shorter r1) (λ (start, r2) h2.
        Ensures-bind (Fewer r) (Shorter 4 r2) (u32_pdp r2) _ (u32_pdp-Shorter r2) (λ (size, r3) h3.
          Follows-Fewer r r3 (section code m start size r3) (omega arith)
            (section-Follows code m start size r3 v))))

sections-IsParsed :
    (n : ℕ) (m : Mcr) (r : List ℕ) → length r < n → IsParsed m → Ensures IsParsed (sections n m r)
unfolding sections
sections-IsParsed zero m r h v = absurd (omega arith)
sections-IsParsed (suc n) m r h v =
    Ensures-bind IsParsed (Fewer r) (one_section m r) _ (one_section-Fewer m r v)
      (after (λ m' r' h' v'. sections-IsParsed n m' r' h' v'))
  where
    after :
        ((m' : Mcr) (r' : List ℕ)
          → length r' < n
          → IsParsed m'
          → Ensures IsParsed (sections n m' r'))
        → (x : Next) → Fewer r x
        → Ensures IsParsed (elim x [
          | stop m r ↦ ok (record m { trailing_bytes = length r })
          | go_on m r ↦ sections n m r
        ])
    after again (go_on m' r') f = again m' r' (omega (arith, f.1)) f.0
    after again (stop m' r') f = record {
      imem_in_range = f.imem_in_range;
      imem_fits = f.imem_fits;
      dmem_sized = f.dmem_sized;
      amem_in_range = f.amem_in_range;
    }

default-IsParsed : IsParsed default_mcr
default-IsParsed = record {
  imem_in_range = omega arith;
  imem_fits = tt;
  dmem_sized = inl refl;
  amem_in_range = omega arith;
}

pub parse-Ensures : (bytes : List ℕ) → Ensures IsParsed (parse bytes)
unfolding parse
parse-Ensures bytes =
    sections-IsParsed (suc (length bytes)) default_mcr bytes (omega arith) default-IsParsed

-- A microcode file that `parse` takes fits the memories: its control store section lies in the
-- 16K words with every word of 48 bits, its dispatch memory has 2,048 or 4,096 words or was not
-- there, and its A memory section starts in A memory.
pub parse-IsParsed : (bytes : List ℕ) (m : Mcr) → parse bytes ≡ ok m → IsParsed m
parse-IsParsed bytes m e = subst (Ensures IsParsed) e (parse-Ensures bytes)

-- The fuel of `parse` is enough: every file gives its sections or one of the reader's errors.
pub parse-ends : (bytes : List ℕ) → parse bytes ≢ err out_of_fuel
parse-ends bytes e = subst (Ensures IsParsed) e (parse-Ensures bytes) refl
