-- ===== src/Micro/Port/Examples.antt =====
-- Memory cycles of a CADR whose map gives every page, or none.
use muir.Base.{ℕ, ◌+◌, ◌*◌, ◌^◌, ◌≡◌, refl}
use muir.Base.Memory.{Memory}
use muir.Machine.Geometry.{Geometry, cadr, wide}
use muir.Machine.Map.{translate, translate_narrow}
use muir.Processor.Isa.{insn}
use muir.Micro.State.{Micro}
use muir.Micro.Boot.{new}
use muir.Micro.Port.{start_read, spied}
use muir.Micro.Operands.{md_landed}
use muir.Micro.TestBus.{memory_bus}
use muir.Micro.Port.Cycles.{start_read-lands}

-- `VMA` 5 and `MD` 9, with the map's second level at a word, main memory holding its addresses.
abbrev with_map : Geometry → ℕ → Micro Memory
with_map g entry =
    let m = new g (λ a. insn 0) (λ a. a) in
    record m {
      access = record m.access {
        vma = 5;
        md = 9;
        maps = record { l1_map = λ a. 0; l2_map = λ a. entry };
      };
    }

-- Readable and writable, page 3.
abbrev mapped : Micro Memory
mapped = with_map cadr (2 ^ 23 + 2 ^ 22 + 3)

start_read-lands_example :
    let once = md_landed (start_read memory_bus mapped) in
    (once.access.md ≡ 9) × ((md_landed once).access.md ≡ 3 * 256 + 5)
unfolding new translate translate_narrow spied wide
start_read-lands_example = start_read-lands memory_bus mapped refl refl refl

abbrev unmapped : Micro Memory
unmapped = with_map cadr 0
