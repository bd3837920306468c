-- ===== src/Machine/FileDevice/RoundTrip.antt =====
-- The file device is loaded as it was saved, or refused for a ring that is too large.
use muir.Base.{
  ℕ, ◌^◌, ◌<◌, ◌≡◌, refl, ap, ◌∙◌, arith, false, if◌then◌else◌, IfSome, List, ◌++◌, ◌≤◌, ltb, ◌||◌,
}
use muir.Checkpoint.{ok, err, bad_ring}
use muir.Checkpoint.Reader.{Reader, and_then}
use muir.Checkpoint.Codec.{Saves, Saves-seq, Saves-pure, Saves-here, reader, writer}
use muir.Checkpoint.Codec.Fields.{Saves-bool, Saves-u16, Saves-u32, Saves-u64}
use muir.Checkpoint.Codec.Sequences.{Saves-opt}
use muir.Checkpoint.Ensures.{Ensures, Ensures-if, Ensures-then}
use muir.Machine.FileDevice.{FileDevice, save, registers, load, ring_too_large, rings_checked}

-- The fields' widths in the source.
pub record IsHeld (f : FileDevice) : Type 0 where
  pub cmd_base_fits : f.cmd_base < 2 ^ 32
  pub cmd_log2_fits : f.cmd_log2 < 2 ^ 32
  pub resp_base_fits : f.resp_base < 2 ^ 32
  pub resp_log2_fits : f.resp_log2 < 2 ^ 32
  pub cmd_prod_fits : f.cmd_prod < 2 ^ 16
  pub cmd_cons_fits : f.cmd_cons < 2 ^ 16
  pub resp_cons_fits : f.resp_cons < 2 ^ 16
  pub head_due_fits : IfSome (λ d. d < 2 ^ 64) f.head_due

-- Both rings are of at most 256 entries.
abbrev pub HasSmallRings : FileDevice → Type 0
HasSmallRings f = (f.cmd_log2 ≤ 8) × (f.resp_log2 ≤ 8)

module _ (n : ℕ) (f : FileDevice) where
  Saves-registers : IsHeld f → Saves n (save f) registers f
  unfolding save registers
  Saves-registers h = Saves-seq _ (Saves-bool n f.enabled) (
      Saves-seq _ (Saves-bool n f.interrupt_enable) (
        Saves-seq _ (Saves-bool n f.refused) (
          Saves-seq _ (Saves-bool n f.index_fault) (
            Saves-seq _ (Saves-u32 n f.cmd_base h.cmd_base_fits) (
              Saves-seq _ (Saves-u32 n f.cmd_log2 h.cmd_log2_fits) (
                Saves-seq _ (Saves-u32 n f.resp_base h.resp_base_fits) (
                  Saves-seq _ (Saves-u32 n f.resp_log2 h.resp_log2_fits) (
                    Saves-seq _ (Saves-u16 n f.cmd_prod h.cmd_prod_fits) (
                      Saves-seq _ (Saves-u16 n f.cmd_cons h.cmd_cons_fits) (
                        Saves-seq _ (Saves-u16 n f.resp_cons h.resp_cons_fits) (
                          Saves-seq _
                            (Saves-opt (λ d. d < 2 ^ 64) (Saves-u64 n) f.head_due h.head_due_fits)
                            (Saves-pure f))))))))))))

  rings_checked-eq :
      (r : Reader)
      → rings_checked f r
        ≡ (if ltb 8 f.cmd_log2 || ltb 8 f.resp_log2 then err bad_ring else ok (f, r))
  rings_checked-eq r = ground arith

  -- A file device with both rings of at most 256 entries.
  pub Saves-files : IsHeld f → HasSmallRings f → Saves n (save f) load f
  unfolding load
  Saves-files h small =
      let e : ltb 8 f.cmd_log2 || ltb 8 f.resp_log2 ≡ false = ground (arith, small.0, small.1) in
      Saves-seq rings_checked (Saves-registers h)
        (Saves-here (λ tail. rings_checked-eq (reader n tail) ∙ rw e refl))

  -- What `save` writes of a file device, after anything and before anything, `load` takes back as
  -- the same registers and rings, and refuses exactly where a ring is of more than 256 entries.
  -- The registers are in their types.
  pub load-save_rings :
      IsHeld f
      → (bytes : List ℕ) × ((out : List ℕ) → save f (writer n out) ≡ writer n (out ++ bytes))
        × ((tail : List ℕ)
            → load (reader n (bytes ++ tail)) ≡ (
                if ltb 8 f.cmd_log2 || ltb 8 f.resp_log2
                then err bad_ring
                else ok (f, reader n tail)))
  unfolding load
  load-save_rings h =
      let s = Saves-registers h in
      (
        s.encoding,
        s.puts,
        λ tail. ap (λ x. and_then x rings_checked) (s.gets tail) ∙ rings_checked-eq (reader n tail),
      )

-- What is loaded has no ring of more than 256 entries.
pub load-small : Ensures HasSmallRings load
unfolding load
load-small = Ensures-then HasSmallRings registers _ (λ f.
    Ensures-if HasSmallRings (ring_too_large f) _ _ (λ e r. tt)
      (λ e r. (ground arith, ground arith)))
