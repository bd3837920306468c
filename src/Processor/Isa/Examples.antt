-- ===== src/Processor/Isa/Examples.antt =====
-- The filler instruction's fields.
use muir.Base.{◌≡◌, refl}
use muir.Processor.Isa.{op, alu_class, alu_fields, a_src, a_addr}
use muir.Processor.Isa.Asm.{filler}

filler_fields :
    (op filler ≡ alu_class)
    × ((alu_fields filler).func ≡ 5)
    × (a_src filler ≡ 3)
    × (a_addr (alu_fields filler).dest ≡ 64)
filler_fields = (refl, refl, refl, refl)
