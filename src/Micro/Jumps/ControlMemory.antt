-- ===== src/Micro/Jumps/ControlMemory.antt =====
-- A write of the control memory, and the fetches after it.
use muir.Base.{
  ℕ, ◌≡◌, ◌≢◌, ◌⊎◌, inl, inr, refl, ◌∙◌, arith, Bool, true, false, not, ◌||◌, ltb, leb, Option,
  some, none, low_bits,
}
use muir.Machine.Geometry.{Geometry}
use muir.Processor.Isa.{Insn}
use muir.Micro.State.{Micro, Pipeline}
use muir.Micro.Jumps.{write_imem, imem_written, prom_at}
use muir.Micro.Edge.{fetch}

-- Whether a fetch is from the boot PROM.
abbrev pub from_prom : Option ℕ → Bool → ℕ → Bool
from_prom none prom_disable at = not (prom_disable || not (ltb at 1024))
from_prom (some base) prom_disable at = leb base at

fetch-imem :
    (b : Option ℕ) (g : Geometry) (d : Bool) (p : Pipeline) (pc : ℕ)
    → g.prom_base ≡ b
    → from_prom b d (low_bits pc 14) ≡ false
    → fetch g d p pc ≡ p.imem (low_bits pc 14)
unfolding fetch
fetch-imem none g d p pc e h = rw e (ground arith)
fetch-imem (some base) g d p pc e h = rw e (ground arith)

module _ {D : Type 0} (m : Micro D) (pc : ℕ) (w : Insn) where
  written_at :
      (b : Option ℕ) (i : ℕ)
      → m.geometry.prom_base ≡ b
      → prom_at b (low_bits pc 14) ≡ false
      → i ≡ low_bits pc 14
      → imem_written m.geometry m.pipeline.imem pc w i ≡ w
  unfolding imem_written
  written_at b i e h k = rw (e, h) (ground arith)

  -- A word that a jump writes into the control memory is the one fetched there, where the boot
  -- PROM is not laid over it.
  pub fetch-write_imem :
      (d : Bool)
      → prom_at m.geometry.prom_base (low_bits pc 14) ≡ false
      → from_prom m.geometry.prom_base d (low_bits pc 14) ≡ false
      → fetch m.geometry d (write_imem m pc w).pipeline pc ≡ w
  unfolding write_imem
  fetch-write_imem d h k =
      fetch-imem m.geometry.prom_base m.geometry d (write_imem m pc w).pipeline pc refl k
      ∙ written_at m.geometry.prom_base (low_bits pc 14) refl h refl

  unwritten_at :
      (i : ℕ)
      → ((prom_at m.geometry.prom_base (low_bits pc 14) ≡ true) ⊎ (i ≢ low_bits pc 14))
      → imem_written m.geometry m.pipeline.imem pc w i ≡ m.pipeline.imem i
  unfolding imem_written
  unwritten_at i (inl h) = rw h refl
  unwritten_at i (inr n) = ground arith

  same_fetch :
      (b : Option ℕ) (d : Bool) (p : Pipeline) (other : ℕ)
      → p.prom ≡ m.pipeline.prom
      → p.imem (low_bits other 14) ≡ m.pipeline.imem (low_bits other 14)
      → fetch (record m.geometry { prom_base = b }) d p other
        ≡ fetch (record m.geometry { prom_base = b }) d m.pipeline other
  unfolding fetch
  same_fetch none d p other e h = rw (e, h) refl
  same_fetch (some base) d p other e h = rw (e, h) refl

  -- No other word of the control memory is changed by it, and none at all by a write into the
  -- addresses of the boot PROM.
  pub fetch-write_imem_other :
      (d : Bool) (other : ℕ)
      → ((prom_at m.geometry.prom_base (low_bits pc 14) ≡ true)
          ⊎ (low_bits other 14 ≢ low_bits pc 14))
      → fetch m.geometry d (write_imem m pc w).pipeline other ≡ fetch m.geometry d m.pipeline other
  unfolding write_imem
  fetch-write_imem_other d other h =
      same_fetch m.geometry.prom_base d (write_imem m pc w).pipeline other refl
        (unwritten_at (low_bits other 14) h)
