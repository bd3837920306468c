-- ===== src/Memory/Port/Runs.antt =====
-- The prefetched word against main memory, over any run of the port, of its engine and of main
-- memory's other writers.
use muir.Base.{ℕ, Bool, true, false, subst, sym}
use muir.Base.{Option, some, List, get_or, set, ◌≡◌, refl, arith, if◌then◌else◌}
use muir.Memory.Port.{MemoryPort, Prefetched, Responder}
use muir.Memory.Port.{poll, mclk_edge, read_answered, finish}
use muir.Memory.Port.{mark_fetch, set_prefetch, drop_prefetched, invalidate_cache, Reach}
use muir.Memory.Port.{with_layout, Layout}
use muir.Memory.Port.Coherence.{
  IsCoherent, unchanged-IsCoherent, none-IsCoherent, request_at-IsCoherent,
}
use muir.Memory.Port.Coherence.{
  read_answered-IsCoherent, store-IsCoherent, poll-IsCoherent, mclk_edge-fields,
}
use muir.Memory.Port.Coherence.{invalidate_cache-prefetched}
use muir.Memory.Port.Transfers.{
  Memories, start_bus_cycle, edge_drops, only_if_at, buffered, disk_write, advance_file_device,
}

-- The port moves on, and main memory and the flag stay.
abbrev pub with_port : Memories → MemoryPort → Memories
with_port m p = record m { port = p }

-- A step of the engine, of the port or of a writer of main memory. A store is of the port's own
-- cycle. The file device says of what it did whether it wrote.
pub data Step : Memories → Memories → Type 0 where
  starts : (m : Memories) (write : Bool) (phys : ℕ) → Step m (start_bus_cycle m write phys)
  marks : (m : Memories) (vaddr : ℕ) → Step m (with_port m (mark_fetch m.port vaddr))
  edges : (m : Memories) (now : ℕ) (r : Responder) → Step m (with_port m (mclk_edge m.port now r))
  polls : (m : Memories) (now : ℕ) (r : Responder) → Step m (with_port m (poll m.port now r).1)
  answers : (m : Memories) → Step m (with_port m (read_answered m.port m.main))
  stores :
      (m : Memories) (v : ℕ)
      → m.port.write ≡ true
      → Step m (record m { main = set m.main m.port.addr v })
  finishes : (m : Memories) → Step m (with_port m (finish m.port))
  drops : (m : Memories) (wmap : Bool) → Step m (edge_drops m wmap)
  fits : (m : Memories) (reach : Option Reach) → Step m (with_port m (set_prefetch m.port reach))
  disk_writes : (m : Memories) (write : List ℕ → List ℕ) → Step m (disk_write m write)
  files_advance :
      (m : Memories) (fitted : Bool) (advance : List ℕ → Bool × List ℕ)
      → ((main : List ℕ) → (advance main).0 ≡ false → (advance main).1 ≡ main)
      → Step m (advance_file_device m fitted advance)

pub data Steps : Memories → Memories → Type 0 where
  at_rest : (m : Memories) → Steps m m
  and_then : (m n o : Memories) → Steps m n → Step n o → Steps m o

-- Where no transfer stands out, the prefetched word is main memory's.
abbrev Settled : Memories → Type 0
Settled m = m.dma_written ≡ false → IsCoherent m.port m.main

start_bus_cycle-Settled :
    (p : MemoryPort) (main : List ℕ) (dma write : Bool) (phys : ℕ)
    → Settled (record { port = p; main = main; dma_written = dma })
    → Settled (start_bus_cycle (record { port = p; main = main; dma_written = dma }) write phys)
unfolding start_bus_cycle
start_bus_cycle-Settled p main false write phys s =
    λ e. request_at-IsCoherent p main write phys (s refl)
start_bus_cycle-Settled p main true write phys s = λ e.
    request_at-IsCoherent (invalidate_cache p) main write phys
      (none-IsCoherent (invalidate_cache p) main (invalidate_cache-prefetched p))

edge_drops-Settled :
    (p : MemoryPort) (main : List ℕ) (dma wmap : Bool)
    → Settled (record { port = p; main = main; dma_written = dma })
    → Settled (edge_drops (record { port = p; main = main; dma_written = dma }) wmap)
unfolding edge_drops
edge_drops-Settled p main dma true s = λ e. none-IsCoherent (drop_prefetched p) main refl
edge_drops-Settled p main true false s = λ e. none-IsCoherent (drop_prefetched p) main refl
edge_drops-Settled p main false false s = s

written-Settled :
    (p : MemoryPort) (main after : List ℕ) (dma wrote : Bool)
    → (wrote ≡ false → after ≡ main)
    → Settled (record { port = p; main = main; dma_written = dma })
    → Settled (record { port = p; main = after; dma_written = if wrote then true else dma })
written-Settled p main after dma true h s = λ e. cc
written-Settled p main after dma false h s = λ e. subst (IsCoherent p) (sym (h refl)) (s e)

files_advance-Settled :
    (m : Memories) (fitted : Bool) (advance : List ℕ → Bool × List ℕ)
    → ((main : List ℕ) → (advance main).0 ≡ false → (advance main).1 ≡ main)
    → Settled m
    → Settled (advance_file_device m fitted advance)
unfolding advance_file_device
files_advance-Settled m false advance honest s = s
files_advance-Settled m true advance honest s =
    written-Settled m.port m.main (advance m.main).1 m.dma_written (advance m.main).0
      (honest m.main) s

disk_write-Settled : (m : Memories) (write : List ℕ → List ℕ) → Settled (disk_write m write)
unfolding disk_write
disk_write-Settled m write = λ e. cc

Step-Settled : (m n : Memories) → Step m n → Settled m → Settled n
Step-Settled m n (starts _ write phys) s =
    start_bus_cycle-Settled m.port m.main m.dma_written write phys s
Step-Settled m n (marks _ vaddr) s =
    λ e. unchanged-IsCoherent m.port n.port m.main refl refl refl (s e)
Step-Settled m n (edges _ now r) s = λ e.
    let f = mclk_edge-fields m.port now r in
    unchanged-IsCoherent m.port n.port m.main f.0 f.1 f.2 (s e)
Step-Settled m n (polls _ now r) s = λ e. poll-IsCoherent m.port m.main now r (s e)
Step-Settled m n (answers _) s = λ e. read_answered-IsCoherent m.port m.main (s e)
Step-Settled m n (stores _ v w) s = λ e. store-IsCoherent m.port m.main v w (s e)
Step-Settled m n (finishes _) s =
    λ e. unchanged-IsCoherent m.port n.port m.main refl refl refl (s e)
Step-Settled m n (drops _ wmap) s = edge_drops-Settled m.port m.main m.dma_written wmap s
Step-Settled m n (fits _ reach) s = λ e. none-IsCoherent n.port m.main refl
Step-Settled m n (disk_writes _ write) s = disk_write-Settled m write
Step-Settled m n (files_advance _ fitted advance honest) s =
    files_advance-Settled m fitted advance honest s

Steps-Settled : (m n : Memories) → Steps m n → Settled m → Settled n
Steps-Settled m n (at_rest _) s = s
Steps-Settled m n (and_then _ middle _ earlier last) s =
    Step-Settled middle n last (Steps-Settled m middle earlier s)

-- A new port, beside any main memory.
abbrev pub at_start : Layout → List ℕ → Memories
at_start layout main = record { port = with_layout layout; main = main; dma_written = false }

only_if_at-some :
    (wanted : ℕ) (o : Option Prefetched) (w : Prefetched)
    → only_if_at wanted o ≡ some w
    → (o ≡ some w) × (w.vaddr ≡ wanted)
only_if_at-some wanted o w e = ground arith

buffered-some :
    (m : Memories) (needfetch have_wrong_word : Bool) (wanted : ℕ) (w : Prefetched)
    → buffered m needfetch have_wrong_word wanted ≡ some w
    → (m.dma_written ≡ false) × (only_if_at wanted m.port.prefetched ≡ some w)
unfolding buffered
buffered-some m needfetch have_wrong_word wanted w e = ground arith

-- Whatever steps the engine, the port and main memory's other writers take from a new port, the
-- word that the engine takes from the buffer for a fetch is the one that main memory has at its
-- address, transfers that no cycle has followed yet included, and is of the address fetched.
pub Steps-buffered :
    (layout : Layout) (start : List ℕ) (m : Memories) (needfetch have_wrong_word : Bool)
    (wanted : ℕ) (w : Prefetched)
    → Steps (at_start layout start) m
    → buffered m needfetch have_wrong_word wanted ≡ some w
    → (get_or m.main w.phys 0 ≡ w.word) × (w.vaddr ≡ wanted)
Steps-buffered layout start m needfetch have_wrong_word wanted w taken e =
    let b = buffered-some m needfetch have_wrong_word wanted w e in
    let o = only_if_at-some wanted m.port.prefetched w b.1 in
    let s =
      Steps-Settled (at_start layout start) m taken
        (λ q. none-IsCoherent (with_layout layout) start refl) in
    ((s b.0).word_held w o.0, o.1)
