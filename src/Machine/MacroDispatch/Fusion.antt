-- ===== src/Machine/MacroDispatch/Fusion.antt =====
-- When a return fuses.
use native.Mathlib.Nat.{mod-eq_of_lt}
use muir.Base.{ℕ, ◌%◌, ◌^◌, ◌<◌, true, false, not, ◌≡◌, arith, bit}
use muir.Base.{some}
use muir.Base.Memory.{update_self}
use muir.Machine.MacroDispatch.{MacroDispatch, main, write, to_index, to_entry}
use muir.Machine.MacroDispatch.{fused_return, operand}

-- An entry of 18 bits with neither R nor P, written at an index, is what a return to the enabled main loop
-- fuses to when the rotated halfword has that index: its handler, whether it keeps the popped
-- word, and the operand that it arms.
pub fused_return-write :
    (d : MacroDispatch) (index entry popped rotated rotate : ℕ)
    → entry < 2 ^ 18
    → bit d.register 31 ≡ true
    → bit popped 14 ≡ true
    → popped % 2 ^ 14 ≡ main d.register
    → bit entry 16 ≡ false
    → bit entry 15 ≡ false
    → rotated % 2 ^ 10 ≡ index % 2 ^ 10
    → fused_return (write (write d to_index index) to_entry entry) popped rotated rotate
      ≡ some (record {
        handler = entry % 2 ^ 14;
        keep = not (bit entry 14);
        armed = operand entry rotated rotate;
      })
unfolding fused_return write
fused_return-write d index entry popped rotated rotate fits on call home no_r no_p same =
    ground (arith, update_self d.entries (index % 2 ^ 10) (entry % 2 ^ 18), mod-eq_of_lt fits)
