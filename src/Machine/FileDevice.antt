-- ===== src/Machine/FileDevice.antt =====
-- src/file_device.rs: the registers and the rings' counts of the file device, and these into a
-- checkpoint and back. The handles and the mounted folders are the host's and are not kept.
use muir.Base.{ℕ, Bool, Option, ltb, ◌||◌, if◌then◌else◌}
use muir.Checkpoint.{bad_ring}
use muir.Checkpoint.Writer.{Put, ◌>>◌}
use muir.Checkpoint.Writer
use muir.Checkpoint.Reader.{Get, ◌>>=◌, pure, fail}
use muir.Checkpoint.Reader
pub mod RoundTrip
mod Examples

-- The response producer is `cmd_cons` too.
pub record FileDevice : Type 0 where
  pub enabled : Bool
  pub interrupt_enable : Bool
  pub refused : Bool
  pub index_fault : Bool
  pub cmd_base : ℕ
  pub cmd_log2 : ℕ
  pub resp_base : ℕ
  pub resp_log2 : ℕ
  pub cmd_prod : ℕ
  pub cmd_cons : ℕ
  pub resp_cons : ℕ
  pub head_due : Option ℕ

unfoldable pub save : FileDevice → Put
save f = do
  Writer.bool f.enabled
  Writer.bool f.interrupt_enable
  Writer.bool f.refused
  Writer.bool f.index_fault
  Writer.u32 f.cmd_base
  Writer.u32 f.cmd_log2
  Writer.u32 f.resp_base
  Writer.u32 f.resp_log2
  Writer.u16 f.cmd_prod
  Writer.u16 f.cmd_cons
  Writer.u16 f.resp_cons
  Writer.opt f.head_due Writer.u64

-- A ring of more than 256 entries is refused.
abbrev pub ring_too_large : FileDevice → Bool
ring_too_large f = ltb 8 f.cmd_log2 || ltb 8 f.resp_log2

abbrev pub rings_checked : FileDevice → Get FileDevice
rings_checked f = if ring_too_large f then fail bad_ring else pure f

-- The fields of `load`, and with its last test.
unfoldable pub registers : Get FileDevice
registers = do
  enabled ← Reader.bool
  interrupt_enable ← Reader.bool
  refused ← Reader.bool
  index_fault ← Reader.bool
  cmd_base ← Reader.u32
  cmd_log2 ← Reader.u32
  resp_base ← Reader.u32
  resp_log2 ← Reader.u32
  cmd_prod ← Reader.u16
  cmd_cons ← Reader.u16
  resp_cons ← Reader.u16
  head_due ← Reader.opt Reader.u64
  pure (record {
    enabled = enabled;
    interrupt_enable = interrupt_enable;
    refused = refused;
    index_fault = index_fault;
    cmd_base = cmd_base;
    cmd_log2 = cmd_log2;
    resp_base = resp_base;
    resp_log2 = resp_log2;
    cmd_prod = cmd_prod;
    cmd_cons = cmd_cons;
    resp_cons = resp_cons;
    head_due = head_due;
  })

unfoldable pub load : Get FileDevice
load = do f ← registers; rings_checked f
