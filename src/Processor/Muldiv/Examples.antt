-- ===== src/Processor/Muldiv/Examples.antt =====
-- 100 plus minus seven times six.
use muir.Base.{◌-◌, ◌^◌, ◌<◌, ◌≡◌, arith}
use muir.Base.Int.{pos, signed32, ◌+ℤ◌, ◌*ℤ◌}
use muir.Processor.Muldiv.{mul, run}
use muir.Processor.Muldiv.Multiply.{run-mul}

run-mul_example :
    let s = run mul 100 (2 ^ 32 - 7) 6 in
    (s.0 < 2 ^ 32)
    × (s.1 < 2 ^ 32)
    × (signed32 s.0 *ℤ pos (2 ^ 32) +ℤ pos s.1 ≡ signed32 100 +ℤ signed32 (2 ^ 32 - 7) *ℤ pos 6)
run-mul_example = run-mul 100 (2 ^ 32 - 7) 6 (omega arith) (omega arith) (omega arith)
