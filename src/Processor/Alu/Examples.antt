-- ===== src/Processor/Alu/Examples.antt =====
-- Sources that differ in sign, compared on a JUMP.
use muir.Base.{◌-◌, ◌^◌, ◌==◌, true, false, ◌≡◌, arith, bit}
use muir.Base.Int.{signed32, leb_ℤ}
use muir.Processor.Alu.{alu, alu_control}
use muir.Processor.Alu.Compare.{alu_jump}

alu_jump_example :
    let c = alu_control 0 false true false true in
    let r = alu 5 (2 ^ 32 - 1) c.aluf c.alumode c.cin in
    (r.aeqm ≡ (5 == (2 ^ 32 - 1))) × (bit r.f 32 ≡ leb_ℤ (signed32 5) (signed32 (2 ^ 32 - 1)))
alu_jump_example = alu_jump 0 5 (2 ^ 32 - 1) false true (omega arith) (omega arith)
