-- ===== src/Micro/Step/Transfers.antt =====
-- The ranges of the engine's pointers, over the transfers of control.
use muir.Base.{ℕ, ◌^◌, ◌<◌, arith, Bool, true, false}
use muir.Base.{Option, some, none, bit, not, ◌&&◌, if◌then◌else◌, ◌==◌, xor}
use muir.Machine.MacroDispatch.{Fused}
use muir.Processor.Isa.{Op, alu_class, jump_class, dispatch_class, byte_class}
use muir.Micro.Stack.{push_spc, pop_spc}
use muir.Micro.State.{Devices, Micro, ir, when}
use muir.Micro.Port.{advance_lc}
use muir.Micro.Conditions.{jump_condition}
use muir.Micro.Step.{execute}
use muir.Micro.Dispatch.{
  dispatch_class_step, dispatch_write, dispatch_transfer, popj_ignored, dispatch_target,
  dispatch_entry, dispatch_address, dispatch_return_pc,
}
use muir.Micro.Jumps.{
  called, jump_calls, jump_class_step, jump_taken, jump_target, write_jump, conditional_jump,
  write_imem, returned, returned_by, popped_return, main_loop_return, fused, pop_asks_for_a_fetch,
  return_pc,
}
use muir.Micro.Step.Frame.{core, core-advance_lc}
use muir.Micro.Step.Range.{
  IsInRange, moved, low_bits-lt, push_spc-lt, pop_spc-lt, ignpopj-lt, when-IsInRange,
  either-IsInRange, with_stack, with_path, with_npc, if-lt, if_npc-lt, fused_up-lt,
  alu_class_step-IsInRange, byte_class_step-IsInRange,
}

module _ {D : Type 0} (dev : Devices D) where
  returned-IsInRange :
      (m : Micro D) (t : ℕ) (f : Option Fused)
      → IsInRange (core m)
      → IsInRange (core (returned m t f).1)
  unfolding returned fused
  returned-IsInRange m t none h = h
  returned-IsInRange m t (some f) h = with_stack _ h (fused_up-lt m.stack f.keep h.spcptr)

  returned_by-IsInRange :
      (b a : Bool) (m : Micro D) (t : ℕ)
      → IsInRange (core m)
      → IsInRange (core (returned_by b (λ p w. main_loop_return p w a) m t).1)
  unfolding returned_by main_loop_return
  returned_by-IsInRange true a m t h = returned-IsInRange (pop_asks_for_a_fetch m t).1 _ _ h
  returned_by-IsInRange false a m t h = h

  pub popped_return-IsInRange :
      (a : Bool) (m : Micro D)
      → IsInRange (core m)
      → IsInRange (core (popped_return (λ p w. main_loop_return p w a) m).1)
  unfolding popped_return
  popped_return-IsInRange a m h =
      let s = pop_spc m.stack in
      returned_by-IsInRange (bit s.0 14) a (record m { stack = s.1 }) s.0
        (with_stack _ h (pop_spc-lt m.stack h.spcptr))

  called-IsInRange : (m : Micro D) (pc : ℕ) → IsInRange (core m) → IsInRange (core (called m pc))
  called-IsInRange m pc h = with_stack _ h (push_spc-lt m.stack pc)

  jump_target-IsInRange :
      (b : Bool) (m : Micro D) → IsInRange (core m) → IsInRange (core (jump_target b m).1)
  unfolding jump_target
  jump_target-IsInRange true m h = popped_return-IsInRange false m h
  jump_target-IsInRange false m h = h

  jump_target-lt : (b : Bool) (m : Micro D) → (jump_target b m).0 < 2 ^ 14
  unfolding jump_target
  jump_target-lt true m = omega arith
  jump_target-lt false m = omega arith

  jump_taken-IsInRange : (m : Micro D) → IsInRange (core m) → IsInRange (core (jump_taken m))
  unfolding jump_taken
  jump_taken-IsInRange m h =
      let calls = ir m 8 1 == 1 in
      let r = ir m 9 1 == 1 in
      let c = when calls jump_calls m in
      with_npc _
        (jump_target-IsInRange r c (when-IsInRange calls jump_calls m h (called-IsInRange m _)))
        (jump_target-lt r c)

  jump_class_step-IsInRange :
      (m : Micro D) → IsInRange (core m) → IsInRange (core (jump_class_step dev m))
  unfolding jump_class_step write_jump conditional_jump jump_condition write_imem
  jump_class_step-IsInRange m h =
      let t = jump_condition dev m in
      let pc = return_pc m.pipeline.npc (ir m 7 1 == 1) in
      let pushed = record (push_spc m.stack pc) { spc_pushed = false; spc_popped = false } in
      either-IsInRange (ir m 8 1 == 1 && ir m 9 1 == 1) (write_jump dev) (conditional_jump dev) m
        (with_stack _ (with_npc _ (with_path _ h) h.npc) (
          if-lt _ (pop_spc pushed).1 m.stack (pop_spc-lt pushed (push_spc-lt m.stack pc)) h.spcptr))
        (when-IsInRange (xor t.0 (ir m 6 1 == 1)) jump_taken t.1 (with_path _ h)
          (jump_taken-IsInRange t.1))

  dispatch_target-IsInRange :
      (b : Bool) (e : ℕ) (a : Bool) (m : Micro D)
      → IsInRange (core m)
      → IsInRange (core (dispatch_target b e a m).1)
  unfolding dispatch_target
  dispatch_target-IsInRange true e a m h = popped_return-IsInRange a m h
  dispatch_target-IsInRange false e a m h = h

  dispatch_transfer-IsInRange :
      (e : ℕ) (a : Bool) (ret : ℕ) (m : Micro D)
      → IsInRange (core m)
      → IsInRange (core (dispatch_transfer e a ret m))
  unfolding dispatch_transfer
  dispatch_transfer-IsInRange e a ret m h =
      let call = λ (p : Micro D). called p ret in
      let c = when (bit e 15) call m in
      with_npc _
        (dispatch_target-IsInRange (bit e 16) e a c
          (when-IsInRange (bit e 15) call m h (called-IsInRange m ret)))
        (low_bits-lt (dispatch_target (bit e 16) e a c).0 14)

  dispatch_entry-IsInRange :
      (e : ℕ) (m : Micro D) → IsInRange (core m) → IsInRange (core (dispatch_entry dev e m))
  unfolding dispatch_entry popj_ignored
  dispatch_entry-IsInRange e m h =
      let a = ir m 24 1 == 1 in
      let begun = record m { path = record m.path { dispatch_constant = ir m 32 10 } } in
      let i = popj_ignored begun e in
      let s = when a (advance_lc dev) i in
      let hs =
        when-IsInRange a (advance_lc dev) i
          (with_stack _ (with_path _ h) (ignpopj-lt m.stack e h.spcptr))
          (moved (core-advance_lc dev i)) in
      let p = s.pipeline in
      let n = record s { pipeline = record p { inhibit = if bit e 14 then true else p.inhibit } } in
      let ret = dispatch_return_pc m.pipeline.npc (bit e 14) (ir m 25 1 == 1) in
      let transfer = λ (t : Micro D). dispatch_transfer e a ret t in
      when-IsInRange (not (bit e 15 && bit e 16)) transfer n (with_npc _ hs hs.npc)
        (dispatch_transfer-IsInRange e a ret n)

  dispatch_write-IsInRange :
      (m : Micro D) (adr : ℕ) → IsInRange (core m) → IsInRange (core (dispatch_write m adr))
  unfolding dispatch_write popj_ignored
  dispatch_write-IsInRange m adr h =
      with_npc _ (with_stack _ (with_path _ h) (ignpopj-lt m.stack _ h.spcptr))
        (if_npc-lt _ _ m.pipeline.npc h.npc)

  dispatch_class_step-IsInRange :
      (m : Micro D) → IsInRange (core m) → IsInRange (core (dispatch_class_step dev m))
  unfolding dispatch_class_step
  dispatch_class_step-IsInRange m h =
      let adr = dispatch_address m in
      either-IsInRange (ir m 10 2 == 2) (λ n. dispatch_write n adr)
        (dispatch_entry dev (m.path.dmem adr)) m (dispatch_write-IsInRange m adr h)
        (dispatch_entry-IsInRange (m.path.dmem adr) m h)

  pub execute-IsInRange :
      (o : Op) (m : Micro D) → IsInRange (core m) → IsInRange (core (execute o dev m))
  unfolding execute
  execute-IsInRange alu_class m h = alu_class_step-IsInRange dev m h
  execute-IsInRange jump_class m h = jump_class_step-IsInRange m h
  execute-IsInRange dispatch_class m h = dispatch_class_step-IsInRange m h
  execute-IsInRange byte_class m h = byte_class_step-IsInRange dev m h
