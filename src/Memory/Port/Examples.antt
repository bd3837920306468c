-- ===== src/Memory/Port/Examples.antt =====
-- A fetch of the first of three words on revision 12's port.
use muir.Base.{ℕ, ◌≤◌, ◌<◌, true, false, List, [], ◌∷◌, ◌≡◌, refl, arith}
use muir.Base.{none, some, get_or}
use muir.Memory.Cache.{read, touch}
use muir.Memory.Port.{
  MemoryPort, Prefetched, to_line, memory_at, nothing_there, layout_12, with_layout,
}
use muir.Memory.Port.{
  set_prefetch, mark_fetch, request_at, mclk_edge, memory_cycle, fill_ns, read_answered,
}
use muir.Memory.Port.{poll}
use muir.Memory.Port.Cycles.{mclk_edge-poll}
use muir.Memory.Port.Runs.{
  Steps-buffered, Steps, at_start, at_rest, and_then, starts, marks, edges, answers, fits,
}
use muir.Memory.Port.Transfers.{Memories, start_bus_cycle, buffered, disk_write}

abbrev three_words : List ℕ
three_words = 7 ∷ 8 ∷ 9 ∷ []

abbrev port : MemoryPort
port = with_layout layout_12

abbrev fitted : MemoryPort
fitted = set_prefetch port (some to_line)

abbrev asked : MemoryPort
asked = request_at fitted false 0

abbrev marked : MemoryPort
marked = mark_fetch asked 0x100

abbrev taken : MemoryPort
taken = mclk_edge marked 40 (memory_at 0)

abbrev answered : MemoryPort
answered = read_answered taken three_words

abbrev next_word : Prefetched
next_word = record { vaddr = 0x101; phys = 1; word = 8 }

taken-fetch : taken.fetch_vaddr ≡ some 0x100
unfolding request_at mclk_edge memory_cycle fill_ns read touch
taken-fetch = refl

answered-prefetched : answered.prefetched ≡ some next_word
unfolding request_at mclk_edge memory_cycle fill_ns read touch read_answered
answered-prefetched = refl

mclk_edge-poll_example :
    let g = mclk_edge (request_at port false 0) 40 nothing_there in
    (moment : ℕ) × (answered : ℕ) × (40 ≤ moment)
    × (answered ≤ moment)
    × ((t : ℕ) → t < moment → (poll g t nothing_there).0 ≡ none)
    × ((t : ℕ)
        → moment ≤ t
        → (poll g t nothing_there).0
          ≡ some (record {
            timed_out = true;
            responder = nothing_there;
            at = moment;
            answered_at = answered;
            cached = g.memory;
          }))
mclk_edge-poll_example = mclk_edge-poll port false 0 40 nothing_there (omega arith)

-- A fetch, and the word after it taken from the buffer.
abbrev beside : MemoryPort → Memories
beside p = record { port = p; main = three_words; dma_written = false }

fetch-Steps : Steps (at_start layout_12 three_words) (beside answered)
unfolding start_bus_cycle
fetch-Steps =
    and_then (beside port) (beside taken) (beside answered)
      (and_then (beside port) (beside marked) (beside taken)
        (and_then (beside port) (beside asked) (beside marked)
          (and_then (beside port) (beside fitted) (beside asked)
            (and_then (beside port) (beside port) (beside fitted) (at_rest (beside port))
              (fits (beside port) (some to_line)))
            (starts (beside fitted) false 0))
          (marks (beside asked) 0x100))
        (edges (beside marked) 40 (memory_at 0)))
      (answers (beside taken))

taken-from_buffer : buffered (beside answered) true false 0x101 ≡ some next_word
unfolding buffered request_at mclk_edge memory_cycle fill_ns read touch read_answered
taken-from_buffer = refl

-- After a disk's transfer the word is not taken.
stale : buffered (disk_write (beside answered) (λ main. [])) true false 0x101 ≡ none
unfolding buffered disk_write
stale = refl

Steps-buffered_example : (get_or three_words 1 0 ≡ 8) × (next_word.vaddr ≡ 0x101)
Steps-buffered_example =
    Steps-buffered layout_12 three_words (beside answered) true false 0x101 next_word fetch-Steps
      taken-from_buffer

abbrev writing : MemoryPort
writing = record port { write = true; memory_free_at = 100; buffer_free_at = 100 }
