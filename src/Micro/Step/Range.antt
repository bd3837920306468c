-- ===== src/Micro/Step/Range.antt =====
-- The ranges of the engine's pointers, over the writes of a microinstruction.
use native.Mathlib.Nat.{mod-lt, pow-suc}
use muir.Base.{ℕ, zero, suc, ◌+◌, ◌^◌, ◌<◌, ◌≡◌, sym, subst, arith, Bool, true, false}
use muir.Base.{bit, low_bits, if◌then◌else◌}
use muir.Micro.Stack.{Stack, push_spc, pop_spc, ignpopj, up}
use muir.Micro.State.{Devices, Micro, Bus, ir, when, either_of}
use muir.Micro.Dests.{
  with_out, with_vma, with_md, dest_of, nowhere, to_lc, to_interrupt_control, to_macro_dispatch,
  pdl_at_pointer, pdl_push, pdl_at_index, to_pdl_index, to_pdl_pointer, to_spc, to_oa_low,
  to_oa_high, to_vma, vma_read, vma_write, vma_map, to_md, md_read, md_write, md_map, write_dest,
  write_dest_code, interrupt_control_written, Dest,
}
use muir.Micro.Edge.{reset_pc}
use muir.Micro.Arithmetic.{alu_class_step, alu_path}
use muir.Micro.Bytes.{byte_class_step, byte_word}
use muir.Micro.Step.Frame.{Core, core, core-start_read, core-start_write}

-- The stack's pointer is five bits, the PDL buffer's are the geometry's, and the pc fourteen.
pub record IsInRange (c : Core) : Type 0 where
  pub reset : reset_pc c.geometry < 2 ^ 14
  pub spcptr : c.stack.spcptr < 32
  pub pdl_pointer : c.pdl.pdl_pointer < 2 ^ c.geometry.pdl_bits
  pub pdl_index : c.pdl.pdl_index < 2 ^ c.geometry.pdl_bits
  pub npc : c.pipeline.npc < 2 ^ 14

pub moved : {a b : Core} → b ≡ a → IsInRange a → IsInRange b
moved e h = subst IsInRange (sym e) h

pow-pos : (k : ℕ) → 0 < 2 ^ k
pow-pos zero = omega arith
pow-pos (suc k) = omega (arith, pow-suc 2 k, pow-pos k)

pub low_bits-lt : (x k : ℕ) → low_bits x k < 2 ^ k
low_bits-lt x k = mod-lt x (pow-pos k)

pub push_spc-lt : (s : Stack) (w : ℕ) → (push_spc s w).spcptr < 32
unfolding push_spc
push_spc-lt s w = omega arith

pub pop_spc-lt : (s : Stack) → s.spcptr < 32 → (pop_spc s).1.spcptr < 32
unfolding pop_spc
pop_spc-lt s h = ground arith

pub ignpopj-lt : (s : Stack) (e : ℕ) → s.spcptr < 32 → (ignpopj s e).spcptr < 32
unfolding ignpopj
ignpopj-lt s e h = ground arith

pub when-IsInRange :
    {D : Type 0} (b : Bool) (f : Micro D → Micro D) (m : Micro D)
    → IsInRange (core m)
    → (IsInRange (core m) → IsInRange (core (f m)))
    → IsInRange (core (when b f m))
when-IsInRange true f m h k = k h
when-IsInRange false f m h k = h

pub either-IsInRange :
    {D : Type 0} (b : Bool) (f g : Micro D → Micro D) (m : Micro D)
    → IsInRange (core (f m))
    → IsInRange (core (g m))
    → IsInRange (core (either_of b f g m))
either-IsInRange true f g m p q = p
either-IsInRange false f g m p q = q

-- With another stack, PDL buffer or pipeline that is in range.
pub with_stack :
    {c : Core} (s : Stack) → IsInRange c → s.spcptr < 32 → IsInRange (record c { stack = s })
with_stack s h p = record {
  reset = h.reset;
  spcptr = p;
  pdl_pointer = h.pdl_pointer;
  pdl_index = h.pdl_index;
  npc = h.npc;
}

pub with_path :
    {c : Core} (p : muir.Micro.State.DataPath) → IsInRange c → IsInRange (record c { path = p })
with_path p h = record {
  reset = h.reset;
  spcptr = h.spcptr;
  pdl_pointer = h.pdl_pointer;
  pdl_index = h.pdl_index;
  npc = h.npc;
}

pub with_npc :
    {c : Core} (p : muir.Micro.State.Pipeline)
    → IsInRange c
    → p.npc < 2 ^ 14
    → IsInRange (record c { pipeline = p })
with_npc p h q = record {
  reset = h.reset;
  spcptr = h.spcptr;
  pdl_pointer = h.pdl_pointer;
  pdl_index = h.pdl_index;
  npc = q;
}

pub with_pdl :
    {c : Core} (p : muir.Micro.Pdl.Pdl)
    → IsInRange c
    → p.pdl_pointer < 2 ^ c.geometry.pdl_bits
    → p.pdl_index < 2 ^ c.geometry.pdl_bits
    → IsInRange (record c { pdl = p })
with_pdl p h q r = record {
  reset = h.reset;
  spcptr = h.spcptr;
  pdl_pointer = q;
  pdl_index = r;
  npc = h.npc;
}

pub if-lt :
    (b : Bool) (s t : Stack) → s.spcptr < 32 → t.spcptr < 32 → (if b then s else t).spcptr < 32
if-lt true s t p q = p
if-lt false s t p q = q

pub if_npc-lt : (b : Bool) (e n : ℕ) → n < 2 ^ 14 → (if b then low_bits e 14 else n) < 2 ^ 14
if_npc-lt true e n h = omega arith
if_npc-lt false e n h = h

pub fused_up-lt :
    (s : Stack) (keep : Bool)
    → s.spcptr < 32
    → (if keep then record s { spcptr = up s.spcptr } else s).spcptr < 32
fused_up-lt s true h = omega arith
fused_up-lt s false h = h

module _ {D : Type 0} (dev : Devices D) where
  write_dest_code-IsInRange :
      (d : Dest) (m : Micro D) (w : ℕ)
      → IsInRange (core m)
      → IsInRange (core (write_dest_code dev d m w))
  unfolding write_dest_code interrupt_control_written
  write_dest_code-IsInRange nowhere m w h = h
  write_dest_code-IsInRange to_lc m w h = h
  write_dest_code-IsInRange to_interrupt_control m w h = h
  write_dest_code-IsInRange (to_macro_dispatch c) m w h = h
  write_dest_code-IsInRange pdl_at_pointer m w h = with_pdl _ h h.pdl_pointer h.pdl_index
  write_dest_code-IsInRange pdl_push m w h =
      with_pdl _ h (low_bits-lt (m.pdl.pdl_pointer + 1) m.geometry.pdl_bits) h.pdl_index
  write_dest_code-IsInRange pdl_at_index m w h = with_pdl _ h h.pdl_pointer h.pdl_index
  write_dest_code-IsInRange to_pdl_index m w h =
      with_pdl _ h h.pdl_pointer (low_bits-lt (low_bits w 16) m.geometry.pdl_bits)
  write_dest_code-IsInRange to_pdl_pointer m w h =
      with_pdl _ h (low_bits-lt (low_bits w 16) m.geometry.pdl_bits) h.pdl_index
  write_dest_code-IsInRange to_spc m w h = with_stack _ h (push_spc-lt m.stack (low_bits w 32))
  write_dest_code-IsInRange to_oa_low m w h = with_npc _ h h.npc
  write_dest_code-IsInRange to_oa_high m w h = with_npc _ h h.npc
  write_dest_code-IsInRange to_vma m w h = h
  write_dest_code-IsInRange vma_read m w h = moved (core-start_read dev (with_vma m w)) h
  write_dest_code-IsInRange vma_write m w h = moved (core-start_write dev (with_vma m w)) h
  write_dest_code-IsInRange vma_map m w h = h
  write_dest_code-IsInRange to_md m w h = h
  write_dest_code-IsInRange md_read m w h = moved (core-start_read dev (with_md m w)) h
  write_dest_code-IsInRange md_write m w h = moved (core-start_write dev (with_md m w)) h
  write_dest_code-IsInRange md_map m w h = h

  write_dest-IsInRange :
      (m : Micro D) (d : ℕ) → IsInRange (core m) → IsInRange (core (write_dest dev m d))
  unfolding write_dest
  write_dest-IsInRange m d h =
      either-IsInRange (bit d 11) _ _ m (with_path _ h)
        (with_path _ (write_dest_code-IsInRange (dest_of d) m m.path.out h))

  pub alu_class_step-IsInRange :
      (m : Micro D) → IsInRange (core m) → IsInRange (core (alu_class_step dev m))
  unfolding alu_class_step
  alu_class_step-IsInRange m h =
      let path = alu_path m.geometry m.counter m.path m.pipeline.p0.raw in
      write_dest-IsInRange (record m { path = path }) (ir m 14 12) (with_path _ h)

  pub byte_class_step-IsInRange :
      (m : Micro D) → IsInRange (core m) → IsInRange (core (byte_class_step dev m))
  unfolding byte_class_step
  byte_class_step-IsInRange m h =
      let word = byte_word m.geometry m.counter m.path m.pipeline.p0.raw in
      write_dest-IsInRange (with_out m word) (ir m 14 12) (with_path _ h)
