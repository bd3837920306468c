-- ===== src/Micro/Saves/Items.antt =====
-- src/micro.rs, `save` and `load`: the items that are not a number or a flag by themselves.
use muir.Base.{ℕ, zero, suc, ◌^◌, ◌≤◌, ◌<◌, ◌≡◌, refl, ap, List, ◌==◌}
use muir.Base.{if◌then◌else◌, arith, length, AllBelow, subst}
use muir.Checkpoint.{bad_write_out}
use muir.Checkpoint.Writer.{Put, ◌>>◌}
use muir.Checkpoint.Writer
use muir.Checkpoint.Reader.{Get, ◌>>=◌, pure, fail}
use muir.Checkpoint.Reader
use muir.Checkpoint.Codec.{Saves, Saves-seq, Saves-pure, Saves-pure_of}
use muir.Checkpoint.Codec.Fields.{Saves-u8, Saves-u16, Saves-u32, Saves-u64, Saves-word}
use muir.Checkpoint.Codec.Sequences.{Saves-u16s_into}
use muir.Processor.Isa.{Insn, insn}
use muir.Micro.Pdl.{PdlAddress, at_address, at_index}
use muir.Micro.State.{WriteOut, started, next, due}

unfoldable pub put_insn : Insn → Put
put_insn i = Writer.u64 i.raw

pub get_insn : Get Insn
get_insn = do raw ← Reader.u64; pure (insn raw)

-- An address and a datum of the map.
pub put_map : ℕ × ℕ → Put
put_map (vma, md) = do Writer.word vma; Writer.word md

pub get_map : Get (ℕ × ℕ)
get_map = do vma ← Reader.word; md ← Reader.word; pure (vma, md)

-- `when as u8`
abbrev pub write_out_code : WriteOut → ℕ
write_out_code started = 0
write_out_code next = 1
write_out_code due = 2

unfoldable pub put_write_out : ℕ × WriteOut → Put
put_write_out (physical, due_at) = do Writer.u32 physical; Writer.u8 (write_out_code due_at)

abbrev pub write_out_of : ℕ → Get WriteOut
write_out_of zero = pure started
write_out_of (suc zero) = pure next
write_out_of (suc (suc zero)) = pure due
write_out_of k = fail (bad_write_out k)

abbrev get_due_at : Get WriteOut
get_due_at = Reader.u8 >>= write_out_of

pub get_write_out : Get (ℕ × WriteOut)
get_write_out = do physical ← Reader.u32; due_at ← get_due_at; pure (physical, due_at)

-- `PDL_AT_INDEX`, an address that no PDL buffer has.
abbrev pub pdl_at_index : ℕ
pdl_at_index = 0xffff

abbrev pub address_code : PdlAddress → ℕ
address_code (at_address adr) = adr
address_code at_index = pdl_at_index

abbrev pub address_of_code : ℕ → PdlAddress
address_of_code v = if v == pdl_at_index then at_index else at_address v

pub put_pdl_write : PdlAddress × ℕ → Put
put_pdl_write (adr, word) = do Writer.u16 (address_code adr); Writer.word word

pub get_pdl_write : Get (PdlAddress × ℕ)
get_pdl_write = do v ← Reader.u16; word ← Reader.word; pure (address_of_code v, word)

pub put_spc_write : ℕ × ℕ → Put
put_spc_write (ptr, word) = do Writer.u8 ptr; Writer.u32 word

pub get_spc_write : Get (ℕ × ℕ)
get_spc_write = do ptr ← Reader.u8; word ← Reader.u32; pure (ptr, word)

-- An address of the PDL buffer's, fourteen bits at most.
abbrev pub AddressFits : PdlAddress → Type 0
AddressFits (at_address adr) = adr < 2 ^ 14
AddressFits at_index = Unit {0}

address_code-round : (a : PdlAddress) → AddressFits a → address_of_code (address_code a) ≡ a
address_code-round (at_address adr) h = ground arith
address_code-round at_index h = refl

address_code-lt : (a : PdlAddress) → AddressFits a → address_code a < 2 ^ 16
address_code-lt (at_address adr) h = omega arith
address_code-lt at_index h = omega arith

module _ (n : ℕ) where
  pub Saves-insn : (i : Insn) → i.raw < 2 ^ 48 → Saves n (put_insn i) get_insn i
  unfolding put_insn get_insn
  Saves-insn i h =
      Saves-seq _ (Saves-u64 n i.raw (omega arith))
        (Saves-pure_of (ap (λ v. record { raw = v }) (omega arith)))

  pub Saves-map :
      n ≤ 8
      → (a : ℕ × ℕ) → (a.0 < (2 ^ 8) ^ n) × (a.1 < (2 ^ 8) ^ n)
      → Saves n (put_map a) get_map a
  unfolding put_map get_map
  Saves-map p (vma, md) h =
      Saves-seq _ (Saves-word n vma p h.0)
        (Saves-seq _ (Saves-word n md p h.1) (Saves-pure (vma, md)))

  Saves-due_at : (o : WriteOut) → Saves n (Writer.u8 (write_out_code o)) get_due_at o
  Saves-due_at started = Saves-seq _ (Saves-u8 n 0) (Saves-pure started)
  Saves-due_at next = Saves-seq _ (Saves-u8 n 1) (Saves-pure next)
  Saves-due_at due = Saves-seq _ (Saves-u8 n 2) (Saves-pure due)

  pub Saves-write_out :
      (o : ℕ × WriteOut) → o.0 < 2 ^ 32 → Saves n (put_write_out o) get_write_out o
  unfolding put_write_out get_write_out
  Saves-write_out (physical, due_at) h =
      Saves-seq _ (Saves-u32 n physical h)
        (Saves-seq _ (Saves-due_at due_at) (Saves-pure (physical, due_at)))

  pub Saves-pdl_write :
      n ≤ 8
      → (a : PdlAddress × ℕ) → AddressFits a.0 × (a.1 < (2 ^ 8) ^ n)
      → Saves n (put_pdl_write a) get_pdl_write a
  unfolding put_pdl_write get_pdl_write
  Saves-pdl_write p (adr, word) h =
      Saves-seq _ (Saves-u16 n (address_code adr) (address_code-lt adr h.0)) (
        Saves-seq _ (Saves-word n word p h.1)
          (Saves-pure_of (ap (λ a. (a, word)) (address_code-round adr h.0))))

  pub Saves-spc_write : (a : ℕ × ℕ) → a.1 < 2 ^ 32 → Saves n (put_spc_write a) get_spc_write a
  unfolding put_spc_write get_spc_write
  Saves-spc_write (ptr, word) h =
      Saves-seq _ (Saves-u8 n ptr) (Saves-seq _ (Saves-u32 n word h) (Saves-pure (ptr, word)))

  pub Saves-pcs :
      (pcs : List ℕ)
      → length pcs ≡ 8
      → AllBelow (2 ^ 16) pcs
      → Saves n (Writer.u16s pcs) (Reader.u16s_into 8) pcs
  Saves-pcs pcs e h =
      subst (λ k. Saves n (Writer.u16s pcs) (Reader.u16s_into k) pcs) e
        (Saves-u16s_into n pcs (omega arith) h)
