-- ===== src/Microcode/Mcr/Examples.antt =====
-- Tests of the microcode files' reader, and its theorems at concrete files.
use muir.Base.{arith, ℕ, ◌≡◌, ◌≢◌, refl, List, [], ◌∷◌}
use muir.Processor.Isa.{insn}
use muir.Microcode.{ok, err, ◌>>=◌, out_of_fuel}
use muir.Microcode.Mcr.{
  Mcr, default_mcr, parse, sections, one_section, section, u32_pdp, u16_le, take_bytes, times,
  read_insn, imem_section, amem_section, swap_halves,
}
use muir.Microcode.Mcr.Halves.{le_words, swap_halves-swap_halves}
use muir.Microcode.Mcr.Bounds.{IsParsed, parse-IsParsed, parse-ends}

-- An A memory section of one word, at 40, and two bytes more.
abbrev version_file : List ℕ
version_file = 0 ∷ 0 ∷ 4 ∷ 0 ∷ 0 ∷ 0 ∷ 32 ∷ 0 ∷ 0 ∷ 0 ∷ 1 ∷ 0 ∷ 0 ∷ 5 ∷ 67 ∷ 1 ∷ 9 ∷ 9 ∷ []

abbrev version_mcr : Mcr
version_mcr = record default_mcr { trailing_bytes = 2; amem_start = 32; amem = 0x05000143 ∷ [] }

parse-version_file : parse version_file ≡ ok version_mcr
unfolding parse sections one_section section u32_pdp take_bytes times amem_section
parse-version_file = refl

parse-IsParsed_example : IsParsed version_mcr
parse-IsParsed_example = parse-IsParsed version_file version_mcr parse-version_file

parse-ends_example : parse (0 ∷ 0 ∷ 4 ∷ []) ≢ err out_of_fuel
parse-ends_example = parse-ends (0 ∷ 0 ∷ 4 ∷ [])

swap_halves-swap_halves_example :
    ((swap_halves (1 ∷ 2 ∷ 3 ∷ 4 ∷ []) >>= times 1 u32_pdp) ≡ ok (0x04030201 ∷ [], []))
    × ((swap_halves (1 ∷ 2 ∷ 3 ∷ 4 ∷ []) >>= swap_halves) ≡ ok (1 ∷ 2 ∷ 3 ∷ 4 ∷ []))
unfolding le_words
swap_halves-swap_halves_example =
    swap_halves-swap_halves (1 ∷ 2 ∷ 3 ∷ 4 ∷ []) refl
      (omega arith, (omega arith, (omega arith, (omega arith, tt))))

-- A control store section of one word, and an empty A memory section.
abbrev pub prom_file : List ℕ
prom_file =
    0 ∷ 0 ∷ 1 ∷ 0 ∷ 0 ∷ 0 ∷ 0 ∷ 0 ∷ 0 ∷ 0 ∷ 1 ∷ 0 ∷ 0 ∷ 0 ∷ 0 ∷ 0 ∷ 0 ∷ 0 ∷ 7 ∷ 0 ∷ 0 ∷ 0 ∷ 4 ∷ 0
    ∷ 0 ∷ 0 ∷ 0 ∷ 0 ∷ 0 ∷ 0 ∷ 0 ∷ 0 ∷ []

abbrev pub prom_mcr : Mcr
prom_mcr = record default_mcr { imem = insn 7 ∷ [] }

pub parse-prom_file : parse prom_file ≡ ok prom_mcr
unfolding parse sections one_section section u32_pdp u16_le take_bytes times read_insn imem_section
    amem_section
parse-prom_file = refl
