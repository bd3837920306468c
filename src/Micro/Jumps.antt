-- ===== src/Micro/Jumps.antt =====
-- src/micro.rs, `jump` and the returns of the macro loop: the JUMP class.
pub mod ControlMemory
mod Examples
use muir.Base.{
  ℕ, ◌+◌, ◌-◌, ◌*◌, ◌/◌, ◌%◌, ◌^◌, bit_or, Bool, true, false, not, ◌&&◌, ◌||◌, xor, ◌==◌,
}
use muir.Base.{leb, bit, if◌then◌else◌, Option, some, none, ◌>>>◌, low_bits}
use muir.Machine.Geometry.{Geometry, wide}
use muir.Machine.MacroDispatch.{Fused, disable, fused_return, index_rotate}
use muir.Processor.Isa.{
  Insn, insn, op, Op, alu_class, jump_class, dispatch_class, byte_class, m_src_functional,
}
use muir.Micro.Shifter.{rol, rol40, lc_rotation}
use muir.Micro.Stack.{Stack, push_spc, pop_spc, up}
use muir.Micro.Counter.{byte_mode, needfetch, stepped}
use muir.Micro.State.{Devices, Micro, DataPath, Pipeline, ir, when, either_of}
use muir.Micro.Conditions.{jump_condition}

-- Whether an address is the boot PROM's, on a machine whose PROM has addresses of its own.
abbrev pub prom_at : Option ℕ → ℕ → Bool
prom_at none at = false
prom_at (some base) at = leb base at

-- `Machine::write_imem`: the boot PROM is not written, and the macro dispatch goes off.
unfoldable pub imem_written : Geometry → (ℕ → Insn) → ℕ → Insn → ℕ → Insn
imem_written g imem pc w =
    let at = low_bits pc 14 in λ a. if not (prom_at g.prom_base at) && a == at then w else imem a

unfoldable pub write_imem : {D : Type 0} → Micro D → ℕ → Insn → Micro D
unfolding imem_written
write_imem m pc w = record m {
  macro_dispatch = disable m.macro_dispatch;
  pipeline = record m.pipeline { imem = imem_written m.geometry m.pipeline.imem pc w };
}

abbrev pub pops_by_source : {D : Type 0} → Micro D → Bool
pops_by_source m = m_src_functional m.pipeline.p0 && low_bits m.path.maddr 4 == 0o14

unfoldable pub writes_class : Op → Bool
writes_class alu_class = true
writes_class byte_class = true
writes_class jump_class = false
writes_class dispatch_class = false

unfoldable pub writes_m31_or_interrupt_control : {D : Type 0} → Micro D → Bool
unfolding writes_class
writes_m31_or_interrupt_control m =
    writes_class (op m.pipeline.p0) && ir m 25 1 == 0 && (ir m 14 5 == 0o31 || ir m 19 5 == 0o2)

unfoldable pub pop_asks_for_a_fetch : {D : Type 0} → Micro D → ℕ → ℕ × Micro D
pop_asks_for_a_fetch m word = (
  if needfetch m.counter then word else bit_or word 2,
  record m {
    counter = record m.counter {
      next_instr = if pops_by_source m then m.counter.next_instr else true;
    };
  },
)

-- M31 rotated as it will be once the location counter has stepped.
unfoldable pub next_macro : {D : Type 0} → Micro D → ℕ
unfolding stepped lc_rotation rol rol40
next_macro m =
    let w = wide m.geometry in
    let at = stepped m.geometry m.counter in
    let rotate = lc_rotation w (byte_mode m.counter) at (index_rotate w) in
    let m31 = m.path.mmem 0o31 in if w then rol40 m31 rotate else rol (low_bits m31 32) rotate

-- The machine with a fused return taken: the pop is undone where the entry keeps the word.
unfoldable pub fused : {D : Type 0} → Micro D → Fused → Micro D
fused m f = record m {
  stack = if f.keep then record m.stack { spcptr = up m.stack.spcptr } else m.stack;
  operand = f.armed;
}

unfoldable pub fuses : {D : Type 0} → Micro D → Bool → Bool
unfolding writes_m31_or_interrupt_control
fuses m advance =
    m.geometry.has_macro_dispatch
    && not (
        needfetch m.counter
        || advance
        || m.counter.next_instrd
        || m.stack.pushed
        || pops_by_source m
        || writes_m31_or_interrupt_control m)

unfoldable pub returned : {D : Type 0} → Micro D → ℕ → Option Fused → ℕ × Micro D
unfolding fused
returned m target none = (target, m)
returned m target (some f) = (f.handler, fused m f)

unfoldable pub main_loop_return : {D : Type 0} → Micro D → ℕ → Bool → ℕ × Micro D
unfolding pop_asks_for_a_fetch fuses returned next_macro fused_return
main_loop_return m word advance =
    let (target, asked) = pop_asks_for_a_fetch m word in
    let rotate = index_rotate (wide m.geometry) in
    returned asked target (
      if fuses asked advance
      then fused_return asked.macro_dispatch word (next_macro asked) rotate
      else none)

-- A word popped, and where it returns to: bit 14 asks for the next macroinstruction.
unfoldable pub returned_by :
    {D : Type 0} → Bool → (Micro D → ℕ → ℕ × Micro D) → Micro D → ℕ → ℕ × Micro D
returned_by true by m t = by m t
returned_by false by m t = (t, m)

unfoldable pub popped_return : {D : Type 0} → (Micro D → ℕ → ℕ × Micro D) → Micro D → ℕ × Micro D
unfolding pop_spc returned_by
popped_return by m =
    let (t, stack) = pop_spc m.stack in returned_by (bit t 14) by (record m { stack = stack }) t

-- The pc that a call pushes: `IR<7>` gives that of the instruction nopped.
unfoldable pub return_pc : ℕ → Bool → ℕ
return_pc npc n = low_bits (if n then (npc + 2 ^ 16 - 1) % 2 ^ 16 else npc) 14

abbrev pub called : {D : Type 0} → Micro D → ℕ → Micro D
called m pc = record m { stack = push_spc m.stack pc }

-- A jump with P and R: a write of the control memory, with a call and a return if it is taken.
unfoldable pub write_jump : {D : Type 0} → Devices D → Micro D → Micro D
unfolding write_imem jump_condition return_pc push_spc pop_spc
write_jump dev m =
    let written = write_imem m (ir m 12 14) (insn m.path.iwr) in
    let invert = ir m 6 1 == 1 in
    let (cond, tested) = jump_condition dev written in
    let pc = return_pc m.pipeline.npc (ir m 7 1 == 1) in
    let pushed = record (push_spc m.stack pc) { spc_pushed = false; spc_popped = false } in
    record written {
      path = if invert then m.path else tested.path;
      stack = if not invert && cond then (pop_spc pushed).1 else m.stack;
      pipeline = record written.pipeline { nopped = 2 };
    }

-- A jump with R returns where the stack says; `JUMP_RETURNS_FUSE` is set.
abbrev pub jump_return : {D : Type 0} → Micro D → ℕ → ℕ × Micro D
jump_return m word = main_loop_return m word false

-- Where a jump that is taken goes, the stack pushed and popped.
unfoldable pub jump_target : {D : Type 0} → Bool → Micro D → ℕ × Micro D
unfolding main_loop_return popped_return
jump_target true m = let (t, popped) = popped_return jump_return m in (low_bits t 14, popped)
jump_target false m = (ir m 12 14, m)

abbrev pub jump_calls : {D : Type 0} → Micro D → Micro D
jump_calls m = called m (return_pc m.pipeline.npc (ir m 7 1 == 1))

unfoldable pub jump_taken : {D : Type 0} → Micro D → Micro D
unfolding jump_target return_pc push_spc
jump_taken m =
    let r = ir m 9 1 == 1 in
    let (target, after) = jump_target r (when (ir m 8 1 == 1) jump_calls m) in
    let p = after.pipeline in
    record after {
      pipeline = record p {
        npc = target;
        inhibit = if ir m 7 1 == 1 then true else p.inhibit;
        popj = if r then false else p.popj;
      };
    }

unfoldable pub conditional_jump : {D : Type 0} → Devices D → Micro D → Micro D
unfolding jump_condition jump_taken
conditional_jump dev m =
    let (cond, tested) = jump_condition dev m in when (xor cond (ir m 6 1 == 1)) jump_taken tested

unfoldable pub jump_class_step : {D : Type 0} → Devices D → Micro D → Micro D
unfolding write_jump conditional_jump
jump_class_step dev m =
    either_of (ir m 8 1 == 1 && ir m 9 1 == 1) (write_jump dev) (conditional_jump dev) m
