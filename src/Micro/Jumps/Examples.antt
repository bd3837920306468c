-- ===== src/Micro/Jumps/Examples.antt =====
-- A word written past the boot PROM of the CADR.
use muir.Base.{◌≡◌, refl, false}
use muir.Base.Memory.{Memory}
use muir.Machine.Geometry.{cadr}
use muir.Processor.Isa.{insn}
use muir.Micro.State.{Micro}
use muir.Micro.Boot.{new}
use muir.Micro.Jumps.{write_imem}
use muir.Micro.Edge.{fetch}
use muir.Micro.Jumps.ControlMemory.{fetch-write_imem}

abbrev machine : Micro Memory
machine = new cadr (λ a. insn 0) (λ a. 0)

fetch-write_imem_example :
    fetch cadr false (write_imem machine 2000 (insn 7)).pipeline 2000 ≡ insn 7
unfolding new
fetch-write_imem_example = fetch-write_imem machine 2000 (insn 7) false refl refl
