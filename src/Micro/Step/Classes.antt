-- ===== src/Micro/Step/Classes.antt =====
-- The clock over the four classes of microinstruction.
use muir.Base.{
  ℕ, ◌≤◌, ◌<◌, ◌≡◌, refl, arith, Bool, true, false, Option, some, none, bit, xor, not, ◌&&◌,
  if◌then◌else◌, ◌==◌,
}
use muir.Machine.MacroDispatch.{Fused}
use muir.Processor.Isa.{Op, alu_class, jump_class, dispatch_class, byte_class}
use muir.Micro.State.{Devices, Micro, ir, when, either_of}
use muir.Micro.Stack.{pop_spc}
use muir.Micro.Sources.{read_functional, read_source, source_of}
use muir.Micro.Dests.{
  with_out, with_vma, with_md, dest_of, nowhere, to_lc, to_interrupt_control, to_macro_dispatch,
  pdl_at_pointer, pdl_push, pdl_at_index, to_pdl_index, to_pdl_pointer, to_spc, to_oa_low,
  to_oa_high, to_vma, vma_read, vma_write, vma_map, to_md, md_read, md_write, md_map, write_dest,
  write_dest_code, interrupt_control_written, Dest,
}
use muir.Micro.Arithmetic.{alu_path, alu_class_step}
use muir.Micro.Bytes.{byte_word, byte_class_step}
use muir.Micro.Conditions.{jump_condition}
use muir.Micro.Jumps.{
  called, jump_class_step, jump_calls, conditional_jump, returned_by, jump_taken, jump_target,
  write_jump, returned, popped_return, main_loop_return, fused, pop_asks_for_a_fetch,
}
use muir.Micro.Dispatch.{
  dispatch_target, dispatch_entry, dispatch_address, dispatch_return_pc, dispatch_class_step,
  dispatch_write, dispatch_transfer, popj_ignored,
}
use muir.Micro.Step.{execute}
use muir.Micro.Port.{advance_lc}
use muir.Micro.Step.Ns.{ns, ns-start_read, ns-start_write, ns-advance_lc}

pub ns-either :
    {D : Type 0} (b : Bool) (f g : Micro D → Micro D) (m : Micro D)
    → ns m ≤ ns (f m)
    → ns m ≤ ns (g m)
    → ns m ≤ ns (either_of b f g m)
ns-either true f g m p q = p
ns-either false f g m p q = q

pub lt-either :
    {D : Type 0} (b : Bool) (f g : Micro D → Micro D) (m : Micro D)
    → ns m < ns (f m)
    → ns m < ns (g m)
    → ns m < ns (either_of b f g m)
lt-either true f g m p q = p
lt-either false f g m p q = q

pub ns-when :
    {D : Type 0} (b : Bool) (f : Micro D → Micro D) (m : Micro D)
    → ns m ≤ ns (f m)
    → ns m ≤ ns (when b f m)
ns-when true f m p = p
ns-when false f m p = omega arith

module _ {D : Type 0} (dev : Devices D) where
  pub ns-read_source :
      (s : muir.Micro.Sources.Source) (b : Bool) (m : Micro D) → ns (read_source s b m).1 ≡ ns m
  unfolding read_source
  ns-read_source s b m = ground arith

  ns-write_dest_code : (d : Dest) (m : Micro D) (w : ℕ) → ns m ≤ ns (write_dest_code dev d m w)
  unfolding write_dest_code interrupt_control_written
  ns-write_dest_code nowhere m w = omega arith
  ns-write_dest_code to_lc m w = omega arith
  ns-write_dest_code to_interrupt_control m w = omega arith
  ns-write_dest_code (to_macro_dispatch c) m w = omega arith
  ns-write_dest_code pdl_at_pointer m w = omega arith
  ns-write_dest_code pdl_push m w = omega arith
  ns-write_dest_code pdl_at_index m w = omega arith
  ns-write_dest_code to_pdl_index m w = omega arith
  ns-write_dest_code to_pdl_pointer m w = omega arith
  ns-write_dest_code to_spc m w = omega arith
  ns-write_dest_code to_oa_low m w = omega arith
  ns-write_dest_code to_oa_high m w = omega arith
  ns-write_dest_code to_vma m w = omega arith
  ns-write_dest_code vma_read m w = ns-start_read dev (with_vma m w)
  ns-write_dest_code vma_write m w = ns-start_write dev (with_vma m w)
  ns-write_dest_code vma_map m w = omega arith
  ns-write_dest_code to_md m w = omega arith
  ns-write_dest_code md_read m w = ns-start_read dev (with_md m w)
  ns-write_dest_code md_write m w = ns-start_write dev (with_md m w)
  ns-write_dest_code md_map m w = omega arith

  ns-write_dest : (m : Micro D) (d : ℕ) → ns m ≤ ns (write_dest dev m d)
  unfolding write_dest
  ns-write_dest m d =
      ns-either (bit d 11) _ _ m (omega arith) (ns-write_dest_code (dest_of d) m m.path.out)

  ns-alu_class_step : (m : Micro D) → ns m ≤ ns (alu_class_step dev m)
  unfolding alu_class_step
  ns-alu_class_step m =
      let path = alu_path m.geometry m.counter m.path m.pipeline.p0.raw in
      ns-write_dest (record m { path = path }) (ir m 14 12)

  ns-byte_class_step : (m : Micro D) → ns m ≤ ns (byte_class_step dev m)
  unfolding byte_class_step
  ns-byte_class_step m =
      let word = byte_word m.geometry m.counter m.path m.pipeline.p0.raw in
      ns-write_dest (with_out m word) (ir m 14 12)

  ns-returned : (m : Micro D) (t : ℕ) (f : Option Fused) → ns (returned m t f).1 ≡ ns m
  unfolding returned fused
  ns-returned m t none = refl
  ns-returned m t (some f) = refl

  ns-main_loop_return : (m : Micro D) (w : ℕ) (b : Bool) → ns (main_loop_return m w b).1 ≡ ns m
  unfolding main_loop_return
  ns-main_loop_return m w b = ns-returned (pop_asks_for_a_fetch m w).1 _ _

  ns-returned_by :
      (b a : Bool) (m : Micro D) (t : ℕ)
      → ns (returned_by b (λ p w. main_loop_return p w a) m t).1 ≡ ns m
  unfolding returned_by
  ns-returned_by true a m t = ns-main_loop_return m t a
  ns-returned_by false a m t = refl

  pub ns-popped_return :
      (a : Bool) (m : Micro D) → ns (popped_return (λ p w. main_loop_return p w a) m).1 ≡ ns m
  unfolding popped_return
  ns-popped_return a m =
      let s = pop_spc m.stack in ns-returned_by (bit s.0 14) a (record m { stack = s.1 }) s.0

  ns-jump_target : (b : Bool) (m : Micro D) → ns (jump_target b m).1 ≡ ns m
  unfolding jump_target
  ns-jump_target true m = ns-popped_return false m
  ns-jump_target false m = refl

  ns-jump_taken : (m : Micro D) → ns m ≤ ns (jump_taken m)
  unfolding jump_taken
  ns-jump_taken m =
      let calls = ir m 8 1 == 1 in
      omega (
        arith,
        ns-jump_target (ir m 9 1 == 1) (when calls jump_calls m),
        ns-when calls jump_calls m (omega arith),
      )

  ns-jump_class_step : (m : Micro D) → ns m ≤ ns (jump_class_step dev m)
  unfolding jump_class_step write_jump conditional_jump jump_condition
  ns-jump_class_step m =
      let t = jump_condition dev m in
      ns-either _ (write_jump dev) (conditional_jump dev) m (omega arith)
        (ns-when (xor t.0 (ir m 6 1 == 1)) jump_taken t.1 (ns-jump_taken t.1))

  ns-dispatch_target :
      (b : Bool) (e : ℕ) (a : Bool) (m : Micro D) → ns (dispatch_target b e a m).1 ≡ ns m
  unfolding dispatch_target
  ns-dispatch_target true e a m = ns-popped_return a m
  ns-dispatch_target false e a m = refl

  ns-dispatch_transfer :
      (e : ℕ) (a : Bool) (ret : ℕ) (m : Micro D) → ns m ≤ ns (dispatch_transfer e a ret m)
  unfolding dispatch_transfer
  ns-dispatch_transfer e a ret m =
      let call = λ (p : Micro D). called p ret in
      omega (
        arith,
        ns-dispatch_target (bit e 16) e a (when (bit e 15) call m),
        ns-when (bit e 15) call m (omega arith),
      )

  ns-dispatch_entry : (e : ℕ) (m : Micro D) → ns m ≤ ns (dispatch_entry dev e m)
  unfolding dispatch_entry popj_ignored
  ns-dispatch_entry e m =
      let a = ir m 24 1 == 1 in
      let begun = record m { path = record m.path { dispatch_constant = ir m 32 10 } } in
      let i = popj_ignored begun e in
      let s = when a (advance_lc dev) i in
      let p = s.pipeline in
      let n = record s { pipeline = record p { inhibit = if bit e 14 then true else p.inhibit } } in
      let ret = dispatch_return_pc m.pipeline.npc (bit e 14) (ir m 25 1 == 1) in
      let transfer = λ (t : Micro D). dispatch_transfer e a ret t in
      omega (
        arith,
        ns-when a (advance_lc dev) i (ns-advance_lc dev i),
        ns-when (not (bit e 15 && bit e 16)) transfer n (ns-dispatch_transfer e a ret n),
      )

  ns-dispatch_class_step : (m : Micro D) → ns m ≤ ns (dispatch_class_step dev m)
  unfolding dispatch_class_step dispatch_write popj_ignored
  ns-dispatch_class_step m =
      let adr = dispatch_address m in
      ns-either (ir m 10 2 == 2) (λ n. dispatch_write n adr) (dispatch_entry dev (m.path.dmem adr))
        m (omega arith) (ns-dispatch_entry (m.path.dmem adr) m)

  pub ns-execute : (o : Op) (m : Micro D) → ns m ≤ ns (execute o dev m)
  unfolding execute
  ns-execute alu_class m = ns-alu_class_step m
  ns-execute jump_class m = ns-jump_class_step m
  ns-execute dispatch_class m = ns-dispatch_class_step m
  ns-execute byte_class m = ns-byte_class_step m
