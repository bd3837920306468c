-- ===== src/Memory/Port/Saves.antt =====
-- src/memory_port.rs: the memory port into a checkpoint, and back into a machine's port, whose
-- timing model, prefetch and layout its flags have set.
mod Examples
use muir.Base.{
  ℕ, zero, suc, ◌+◌, ◌%◌, ◌^◌, ◌≤◌, ◌<◌, ◌≡◌, ◌∙◌, ap, ap₂, subst, Bool, true, false, Option,
}
use muir.Base.{none, some, List, [], IfSome, arith, low_bits, refl}
use native.Mathlib.Nat.{mod-eq_of_lt}
use muir.Checkpoint.{ok, bad_port_state}
use muir.Checkpoint.Writer.{Put, ◌>>◌}
use muir.Checkpoint.Writer
use muir.Checkpoint.Reader.{Get, ◌>>=◌, pure, fail}
use muir.Checkpoint.Reader
use muir.Checkpoint.Codec.{
  Saves, Saves-seq, Saves-pure, Saves-pure_of, Saves-whole, to_the_end, reader, writer,
}
use muir.Checkpoint.Codec.Fields.{Saves-bool, Saves-u8, Saves-u32, Saves-u64, Saves-word}
use muir.Checkpoint.Codec.Sequences.{Saves-opt}
use muir.Memory.Cache.Saves
use muir.Memory.Port.{
  MemoryPort, State, idle, requested, granted, acked, Reach, Prefetched, MemoryTiming,
}

abbrev put_state : State → Put
put_state idle = Writer.u8 0
put_state requested = Writer.u8 1
put_state (granted at answered timed_out) = do
  Writer.u8 2
  Writer.u64 at
  Writer.u64 answered
  Writer.bool timed_out
put_state (acked at answered timed_out) = do
  Writer.u8 3
  Writer.u64 at
  Writer.u64 answered
  Writer.bool timed_out

abbrev state_of : ℕ → Get State
state_of zero = pure idle
state_of (suc zero) = pure requested
state_of (suc (suc zero)) = do
  at ← Reader.u64
  answered ← Reader.u64
  timed_out ← Reader.bool
  pure (granted at answered timed_out)
state_of (suc (suc (suc zero))) = do
  at ← Reader.u64
  answered ← Reader.u64
  timed_out ← Reader.bool
  pure (acked at answered timed_out)
state_of k = fail (bad_port_state k)

abbrev get_state : Get State
get_state = Reader.u8 >>= state_of

abbrev put_prefetched : Prefetched → Put
put_prefetched p = do Writer.u32 p.vaddr; Writer.u32 p.phys; Writer.word p.word

abbrev get_prefetched : ℕ → Get Prefetched
get_prefetched bits = do
  vaddr ← Reader.u32
  phys ← Reader.u32
  word ← Reader.word
  pure (record { vaddr = low_bits vaddr bits; phys = phys; word = word })

abbrev get_fetch_vaddr : ℕ → Get ℕ
get_fetch_vaddr bits = do vaddr ← Reader.u32; pure (low_bits vaddr bits)

unfoldable pub save : MemoryPort → Put
save p = do
  put_state p.state
  Writer.bool p.write
  Writer.u32 p.addr
  Writer.bool p.memory
  Saves.save p.cache
  Writer.u64 p.timing.read_ns
  Writer.u64 p.timing.write_ns
  Writer.u64 p.memory_free_at
  Writer.u64 p.buffer_free_at
  Writer.opt p.prefetched put_prefetched
  Writer.opt p.fetch_vaddr Writer.u32

-- What was taken where the prefetch is fitted, and what there was where it is not.
abbrev pub if_fitted {ℓ} : {A : Type ℓ} → Option Reach → A → A → A
if_fitted none taken before = before
if_fitted (some reach) taken before = taken

-- `load`, into the port `p`.
unfoldable pub load : MemoryPort → Get MemoryPort
load p = do
  state ← get_state
  write ← Reader.bool
  addr ← Reader.u32
  memory ← Reader.bool
  cache ← Saves.load
  read_ns ← Reader.u64
  write_ns ← Reader.u64
  memory_free_at ← Reader.u64
  buffer_free_at ← Reader.u64
  prefetched ← Reader.opt (get_prefetched p.layout.vaddr_bits)
  fetch_vaddr ← Reader.opt (get_fetch_vaddr p.layout.vaddr_bits)
  pure (record p {
    state = state;
    write = write;
    addr = addr;
    memory = memory;
    cache = cache;
    timing = record { read_ns = read_ns; write_ns = write_ns };
    memory_free_at = memory_free_at;
    buffer_free_at = buffer_free_at;
    prefetched = if_fitted p.prefetch prefetched p.prefetched;
    fetch_vaddr = if_fitted p.prefetch fetch_vaddr p.fetch_vaddr;
  })

abbrev StateFits : State → Type 0
StateFits idle = Unit {0}
StateFits requested = Unit {0}
StateFits (granted at answered timed_out) = (at < 2 ^ 64) × (answered < 2 ^ 64)
StateFits (acked at answered timed_out) = (at < 2 ^ 64) × (answered < 2 ^ 64)

-- A prefetched word that fits a layout of `bits` of address, with words of `n` bytes.
abbrev PrefetchedFits : ℕ → ℕ → Prefetched → Type 0
PrefetchedFits n bits q =
    (q.vaddr < 2 ^ bits) × (q.vaddr < 2 ^ 32) × (q.phys < 2 ^ 32) × (q.word < (2 ^ 8) ^ n)

-- A port whose numbers fit their types and whose addresses fit `bits` of layout.
pub record IsHeld (n bits : ℕ) (p : MemoryPort) : Type 0 where
  pub state_fits : StateFits p.state
  pub addr_fits : p.addr < 2 ^ 32
  pub cache_held : Saves.IsHeld p.cache
  pub read_ns_fits : p.timing.read_ns < 2 ^ 64
  pub write_ns_fits : p.timing.write_ns < 2 ^ 64
  pub memory_free_at_fits : p.memory_free_at < 2 ^ 64
  pub buffer_free_at_fits : p.buffer_free_at < 2 ^ 64
  pub prefetched_fits : IfSome (PrefetchedFits n bits) p.prefetched
  pub fetch_vaddr_fits : IfSome (λ v. (v < 2 ^ bits) × (v < 2 ^ 32)) p.fetch_vaddr

module _ (n : ℕ) where
  Saves-state : (s : State) → StateFits s → Saves n (put_state s) get_state s
  Saves-state idle h = Saves-seq _ (Saves-u8 n 0) (Saves-pure idle)
  Saves-state requested h = Saves-seq _ (Saves-u8 n 1) (Saves-pure requested)
  Saves-state (granted at answered timed_out) h = Saves-seq _ (Saves-u8 n 2) (
      Saves-seq _ (Saves-u64 n at h.0) (
        Saves-seq _ (Saves-u64 n answered h.1)
          (Saves-seq _ (Saves-bool n timed_out) (Saves-pure _))))
  Saves-state (acked at answered timed_out) h = Saves-seq _ (Saves-u8 n 3) (
      Saves-seq _ (Saves-u64 n at h.0) (
        Saves-seq _ (Saves-u64 n answered h.1)
          (Saves-seq _ (Saves-bool n timed_out) (Saves-pure _))))

  low_bits-same : (v bits : ℕ) → v < 2 ^ bits → low_bits v bits ≡ v
  low_bits-same v bits h = mod-eq_of_lt h

  Saves-prefetched :
      (bits : ℕ)
      → n ≤ 8
      → (q : Prefetched) → PrefetchedFits n bits q
      → Saves n (put_prefetched q) (get_prefetched bits) q
  Saves-prefetched bits p q h = Saves-seq _ (Saves-u32 n q.vaddr h.1) (
      Saves-seq _ (Saves-u32 n q.phys h.2) (
        Saves-seq _ (Saves-word n q.word p h.3)
          (Saves-pure_of (ap (λ v. record q { vaddr = v }) (low_bits-same q.vaddr bits h.0)))))

  Saves-fetch_vaddr :
      (bits v : ℕ) → (v < 2 ^ bits) × (v < 2 ^ 32) → Saves n (Writer.u32 v) (get_fetch_vaddr bits) v
  Saves-fetch_vaddr bits v h =
      Saves-seq _ (Saves-u32 n v h.1) (Saves-pure_of (low_bits-same v bits h.0))

  -- The checkpoint of a port is loaded into a machine's as the same cycle, cache and times; the
  -- prefetched word and the marked fetch are taken only where the machine has the prefetch, and
  -- the model, the prefetch and the layout stay the machine's.
  pub load-save :
      (p before : MemoryPort)
      → n ≤ 8
      → IsHeld n before.layout.vaddr_bits p
      → Saves n (save p) (load before) (record p {
        model = before.model;
        prefetch = before.prefetch;
        layout = before.layout;
        prefetched = if_fitted before.prefetch p.prefetched before.prefetched;
        fetch_vaddr = if_fitted before.prefetch p.fetch_vaddr before.fetch_vaddr;
      })
  unfolding save load
  load-save p before b h =
      let bits = before.layout.vaddr_bits in
      Saves-seq _ (Saves-state p.state h.state_fits) (
        Saves-seq _ (Saves-bool n p.write) (
          Saves-seq _ (Saves-u32 n p.addr h.addr_fits) (
            Saves-seq _ (Saves-bool n p.memory) (
              Saves-seq _ (Saves.load-save n p.cache h.cache_held) (
                Saves-seq _ (Saves-u64 n p.timing.read_ns h.read_ns_fits) (
                  Saves-seq _ (Saves-u64 n p.timing.write_ns h.write_ns_fits) (
                    Saves-seq _ (Saves-u64 n p.memory_free_at h.memory_free_at_fits) (
                      Saves-seq _ (Saves-u64 n p.buffer_free_at h.buffer_free_at_fits) (
                        Saves-seq _
                          (Saves-opt _ (Saves-prefetched bits b) p.prefetched h.prefetched_fits)
                          (Saves-seq _
                            (Saves-opt _ (Saves-fetch_vaddr bits) p.fetch_vaddr h.fetch_vaddr_fits)
                            (Saves-pure _)))))))))))

-- The checkpoint of a port is loaded to its last byte into a machine's: the same cycle, cache and
-- times, with the prefetched word and the marked fetch only where the machine has the prefetch,
-- and the model, the prefetch and the layout the machine's. The port's numbers fit their types,
-- its addresses the machine's layout, and its cache is one that its configuration allows.
pub resume-save :
    (n : ℕ) (p before : MemoryPort)
    → n ≤ 8
    → IsHeld n before.layout.vaddr_bits p
    → to_the_end (load before) (reader n (save p (writer n [])).out)
      ≡ ok (
        record p {
          model = before.model;
          prefetch = before.prefetch;
          layout = before.layout;
          prefetched = if_fitted before.prefetch p.prefetched before.prefetched;
          fetch_vaddr = if_fitted before.prefetch p.fetch_vaddr before.fetch_vaddr;
        },
        reader n [],
      )
resume-save n p before narrow h = Saves-whole (load-save n p before narrow h)
