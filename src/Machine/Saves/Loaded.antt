-- ===== src/Machine/Saves/Loaded.antt =====
-- What holds of a machine that a checkpoint was loaded into, whatever the file's bytes.
use muir.Base.{ℕ, ◌-◌, ◌*◌, ◌^◌, ◌<◌, ◌≡◌, Option, none, some, arith}
use muir.Base.{ap, ◌∙◌, ltb, refl, length}
use native.Mathlib.Nat.{one-le-pow}
use muir.Checkpoint.{ok}
use muir.Checkpoint.Reader.{Get, Reader, pure}
use muir.Checkpoint.Reader
use muir.Machine.Timer.Saves.{load as load_timers, load_rtc}
use muir.Machine.MacroDispatch.Saves.{load as load_macro_dispatch}
use muir.Machine.FileDevice.{load as load_files}
use muir.Machine.FileDevice.RoundTrip.{HasSmallRings, load-small}
use muir.Checkpoint.Ensures.{Ensures, Ensures-if, Ensures-bind, Ensures-then, Ensures-ok}
use muir.Machine.Geometry.{Geometry}
use muir.Machine.Saves.{
  get_pointers, spc_checked, machine_of, pointers_checked, load_at, load_to_geometry, get_insns,
  get_console, get_arrays, get_registers, get_codes, sizes,
}
use muir.Machine.Saves.State.{Pointers, Head, Codes, codes, geometry_of}

-- The pointers fit the memories that they address, the geometry is one that its own codes name,
-- and the file device's rings are of at most 256 entries.
pub record IsLoaded (h : Head) : Type 0 where
  pub spcptr_fits : h.pointers.spcptr < 2 ^ 5
  pub pdl_pointer_fits : h.pointers.pdl_pointer < 2 ^ h.geometry.pdl_bits
  pub pdl_index_fits : h.pointers.pdl_index < 2 ^ h.geometry.pdl_bits
  pub is_machine : geometry_of (codes h.geometry) ≡ some h.geometry
  pub rings_fit : HasSmallRings h.file_device

-- Two checkpoints of a machine say the same of it.
codes-geometry_of : (c : Codes) (g : Geometry) → geometry_of c ≡ some g → codes g ≡ c
unfolding geometry_of
codes-geometry_of c g e = ground arith

spc_checked-fits : (v : ℕ) → Ensures (λ s. s < 2 ^ 5) (spc_checked v)
spc_checked-fits v = Ensures-if (λ s. s < 2 ^ 5) (ltb 0o37 v) _ _ (λ e r. tt) (λ e r. ground arith)

get_pointers-fits : Ensures (λ p. p.spcptr < 2 ^ 5) get_pointers
unfolding get_pointers
get_pointers-fits =
    Ensures-then (λ p. p.spcptr < 2 ^ 5) Reader.u8 _
      (λ v.
        Ensures-bind _ _ (spc_checked v) _ (spc_checked-fits v)
          (λ s h. Ensures-then _ Reader.u16 _ (λ p. Ensures-then _ Reader.u16 _ (λ i r. h))))

machine_of-names : (c : Codes) (o : Option Geometry) → Ensures (λ g. o ≡ some g) (machine_of c o)
machine_of-names c none r = tt
machine_of-names c (some g) r = refl

abbrev Fit : Geometry → Pointers → Type 0
Fit g p = (p.pdl_pointer < 2 ^ g.pdl_bits) × (p.pdl_index < 2 ^ g.pdl_bits)

pointers_checked-Fit : (g : Geometry) (p : Pointers) → Ensures (λ u. Fit g p) (pointers_checked g p)
pointers_checked-Fit g p =
    Ensures-if (λ u. Fit g p) (ltb (2 ^ g.pdl_bits - 1) p.pdl_pointer) _ _ (λ e r. tt)
      (λ e.
        Ensures-if (λ u. Fit g p) (ltb (2 ^ g.pdl_bits - 1) p.pdl_index) _ _ (λ e' r. tt)
          (λ e' r. let pos = one-le-pow g.pdl_bits 2 (omega arith) in (ground arith, ground arith)))

module _ (bits : ℕ) (before : Head) where
  load_at-IsLoaded : Ensures IsLoaded (load_at bits before)
  unfolding load_at
  load_at-IsLoaded = Ensures-then IsLoaded (get_insns (length before.prom)) _ (λ prom.
      Ensures-then IsLoaded (get_insns (length before.imem)) _ (λ imem.
        Ensures-then IsLoaded get_console _ (λ console.
          Ensures-then IsLoaded (get_arrays (ltb 32 bits) before.arrays) _ (λ arrays.
            Ensures-bind IsLoaded (λ p. p.spcptr < 2 ^ 5) get_pointers _ get_pointers-fits
              (λ p spc. Ensures-then IsLoaded get_registers _ (λ registers.
                Ensures-then IsLoaded (Reader.u32s_into (sizes (ltb 32 bits) 8192)) _ (λ l1_map.
                  Ensures-then IsLoaded (get_codes bits before.overflow) _ (λ co.
                    Ensures-then IsLoaded load_timers _ (λ timers.
                      Ensures-then IsLoaded load_macro_dispatch _ (λ macro_dispatch.
                        Ensures-then IsLoaded load_rtc _ (λ rtc.
                          Ensures-bind IsLoaded HasSmallRings load_files _ load-small
                            (λ files small. Ensures-then IsLoaded Reader.bool _ (λ dma_written.
                              Ensures-bind IsLoaded (λ g. geometry_of co.0 ≡ some g)
                                (machine_of co.0 (geometry_of co.0)) _
                                (machine_of-names co.0 (geometry_of co.0))
                                (λ g named.
                                  Ensures-bind IsLoaded (λ u. Fit g p) (pointers_checked g p) _
                                    (pointers_checked-Fit g p)
                                    (λ u fit r. record {
                                      spcptr_fits = spc;
                                      pdl_pointer_fits = fit.0;
                                      pdl_index_fits = fit.1;
                                      rings_fit = small;
                                      is_machine =
                                          ap geometry_of (codes-geometry_of co.0 g named) ∙ named;
                                    })))))))))))))))

-- Whatever a file's bytes are, where `load_to_geometry` takes them the pointers fit the memories
-- that they address: the SPC pointer is of five bits, and the PDL buffer's pointer and index are
-- of as many as the geometry that was loaded has. That geometry is one of the four machines',
-- found again from what a checkpoint of it says, and the file device's rings are of at most 256
-- entries.
pub load_to_geometry-IsLoaded :
    (before h : Head) (r r' : Reader) → load_to_geometry before r ≡ ok (h, r') → IsLoaded h
unfolding load_to_geometry
load_to_geometry-IsLoaded before h r r' e =
    Ensures-ok IsLoaded (load_at (r.word_bytes * 8) before)
      (load_at-IsLoaded (r.word_bytes * 8) before) r r' h e
