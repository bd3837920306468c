-- ===== src/Microcode/Prom/Examples.antt =====
-- Tests of the boot PROM's readers, and their theorem at a concrete file.
use muir.Base.{◌≡◌, refl, inl, length, map}
use muir.Processor.Isa.{insn}
use muir.Microcode.{ok}
use muir.Microcode.Mcr.Examples.{prom_file, prom_mcr, parse-prom_file}
use muir.Microcode.Prom.{
  parse_mcr, programming, unprogramming, prom_words, resize, burned_low, count_ones,
}
use muir.Microcode.Prom.Accepted.{accepted-burned}

parse_mcr-prom_file : parse_mcr prom_file ≡ ok (resize prom_mcr.imem)
unfolding parse_mcr
parse_mcr-prom_file = rw parse-prom_file refl

accepted-burned_example :
    (length (resize prom_mcr.imem) ≡ prom_words)
    × (map unprogramming (map programming (resize prom_mcr.imem)) ≡ resize prom_mcr.imem)
accepted-burned_example = accepted-burned prom_file (resize prom_mcr.imem) (inl parse_mcr-prom_file)

burned_one : programming (insn 1) ≡ 1
unfolding programming burned_low count_ones
burned_one = refl
