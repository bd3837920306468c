-- ===== src/Memory/Port/Transfers.antt =====
-- src/rtl.rs and src/machine.rs: how the timed engine and main memory's other writers use the port.
-- A transfer writes main memory and sets the machine's `dma_written`; the engine takes no word
-- that is prefetched while it is set, drops the word at the next edge, and invalidates the cache
-- before the next cycle.
use muir.Base.{ℕ, Bool, true, false, Option, none, some, List, ◌&&◌, ◌==◌, not, if◌then◌else◌}
use muir.Memory.Port.{MemoryPort, Prefetched, request_at, invalidate_cache, drop_prefetched}

-- The port, main memory, and the machine's flag.
pub record Memories : Type 0 where
  pub port : MemoryPort
  pub main : List ℕ
  pub dma_written : Bool

-- `start_bus_cycle`: a cycle that goes out.
unfoldable pub start_bus_cycle : Memories → Bool → ℕ → Memories
start_bus_cycle m wrcyc bus_addr =
    let port = if m.dma_written then invalidate_cache m.port else m.port in
    record m { port = request_at port wrcyc bus_addr; dma_written = false }

-- The drops of the clock edge, without their counts.
unfoldable pub edge_drops : Memories → Bool → Memories
edge_drops m wmap =
    if wmap
    then record m { port = drop_prefetched m.port }
    else if m.dma_written
    then record m { port = drop_prefetched m.port }
    else m

abbrev pub only_if_at : ℕ → Option Prefetched → Option Prefetched
only_if_at wanted (some w) = if w.vaddr == wanted then some w else none
only_if_at wanted none = none

-- `buffered`: the word that a return of the stream may take, at the fetch's address.
unfoldable pub buffered : Memories → Bool → Bool → ℕ → Option Prefetched
buffered m needfetch have_wrong_word wanted =
    if needfetch && not have_wrong_word && not m.dma_written
    then only_if_at wanted m.port.prefetched
    else none

-- A write of a disk's register, `write` being what the disk does to main memory.
unfoldable pub disk_write : Memories → (List ℕ → List ℕ) → Memories
disk_write m write = record m { main = write m.main; dma_written = true }

-- `advance_file_device`, `advance` being the device's own: whether it wrote, and main memory.
unfoldable pub advance_file_device : Memories → Bool → (List ℕ → Bool × List ℕ) → Memories
advance_file_device m fitted advance =
    if fitted
    then record m {
      main = (advance m.main).1;
      dma_written = if (advance m.main).0 then true else m.dma_written;
    }
    else m
