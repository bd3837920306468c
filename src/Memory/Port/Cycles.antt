-- ===== src/Memory/Port/Cycles.antt =====
-- When a cycle is acknowledged.
use muir.Base.{min, ◌⊎◌, ℕ, ◌+◌, ◌≤◌, ◌<◌, max, Bool, true, false}
use muir.Base.{some, none, length, ◌≡◌, ap, ap₂, ◌∙◌, arith, Bool-cases, inl, inr}
use muir.Memory.Cache.{Cache, CacheConfig, read, line_of, set_of}
use muir.Memory.Cache.Hits.{read-holds}
use muir.Memory.Cycle.{cycle_ns, normal}
use muir.Memory.Port.{MemoryPort, requested, granted, Responder, memory_at, device}
use muir.Memory.Port.{nothing_there, poll, mclk_edge, memory_cycle, request_at}
use muir.Memory.Port.{fill_ns, ack_of, advance}

pub memory_cycle-serial :
    (p : MemoryPort) (now : ℕ)
    → p.buffer_free_at ≤ p.memory_free_at
    → let r = memory_cycle p now in
      (now ≤ r.0)
      × (r.1.buffer_free_at ≤ r.1.memory_free_at)
      × ((r.1.memory_free_at ≡ p.memory_free_at)
          ⊎ (max now p.memory_free_at + min p.timing.read_ns p.timing.write_ns
              ≤ r.1.memory_free_at))
unfolding memory_cycle fill_ns
memory_cycle-serial p now h = elim (Bool-cases p.write) [
  | inl writes ↦ ground (arith, writes, Bool-cases p.cache.config.write_buffer)
  | inr reads ↦ ground (arith, reads, Bool-cases (read p.cache p.addr).0)
]

-- A write through the buffer is acknowledged no later than main memory has done it, where the
-- hit time is no longer than the write's and the buffer is free no later than the memory; and
-- main memory is then busy with it until a write's time after it could start.
pub memory_cycle-write :
    (p : MemoryPort) (now : ℕ)
    → p.write ≡ true
    → p.cache.config.write_buffer ≡ true
    → p.cache.config.hit_ns ≤ p.timing.write_ns
    → p.buffer_free_at ≤ p.memory_free_at
    → let r = memory_cycle p now in
      (r.0 ≤ r.1.memory_free_at)
      × (r.1.memory_free_at ≡ max now p.memory_free_at + p.timing.write_ns)
      × (r.1.buffer_free_at ≡ r.1.memory_free_at)
unfolding memory_cycle fill_ns
memory_cycle-write p now w b h o = ground arith

request_at-fields :
    (p : MemoryPort) (write : Bool) (phys : ℕ)
    → let q = request_at p write phys in
      (q.state ≡ requested)
      × (q.buffer_free_at ≡ p.buffer_free_at)
      × (q.memory_free_at ≡ p.memory_free_at)
unfolding request_at
request_at-fields p write phys = ground arith

-- Whether a cycle to a responder fails as a decode miss.
abbrev pub misses_decode : Responder → Bool
misses_decode (memory_at _) = false
misses_decode device = false
misses_decode nothing_there = true

mclk_edge-granted :
    (q : MemoryPort) (now : ℕ) (r : Responder)
    → q.state ≡ requested
    → q.buffer_free_at ≤ q.memory_free_at
    → (moment : ℕ) × (answered : ℕ) × ((mclk_edge q now r).state
        ≡ granted moment answered (misses_decode r))
      × (now ≤ moment)
      × (answered ≤ moment)
unfolding mclk_edge
mclk_edge-granted q now (memory_at board) s h =
    let r = memory_cycle (record q { memory = true }) now in
    (
      r.0,
      r.0,
      ground (arith, s),
      (memory_cycle-serial (record q { memory = true }) now h).0,
      omega arith,
    )
mclk_edge-granted q now device s h =
    (now + cycle_ns q.model normal false, now, ground (arith, s), omega arith, omega arith)
mclk_edge-granted q now nothing_there s h = (now, now, ground (arith, s), omega arith, omega arith)

poll-early :
    (g : MemoryPort) (moment answered t : ℕ) (failed : Bool) (r : Responder)
    → g.state ≡ granted moment answered failed
    → t < moment
    → (poll g t r).0 ≡ none
unfolding poll
poll-early g moment answered t failed r s h =
    ap (λ x. ack_of (advance x t) r g.memory) s ∙ ground arith

poll-due :
    (g : MemoryPort) (moment answered t : ℕ) (failed : Bool) (r : Responder)
    → g.state ≡ granted moment answered failed
    → moment ≤ t
    → (poll g t r).0
      ≡ some (record {
        timed_out = failed;
        responder = r;
        at = moment;
        answered_at = answered;
        cached = g.memory;
      })
unfolding poll
poll-due g moment answered t failed r s h =
    ap (λ x. ack_of (advance x t) r g.memory) s ∙ ground arith

-- In a port whose buffer is free no later than its memory is, a cycle requested is granted at the
-- edge with a moment of acknowledgement, no sooner than the edge nor than the answer: a poll
-- before it reports nothing, and one at it or later reports it, a failure exactly where nothing
-- is there.
pub mclk_edge-poll :
    (p : MemoryPort) (write : Bool) (phys now : ℕ) (r : Responder)
    → p.buffer_free_at ≤ p.memory_free_at
    → let g = mclk_edge (request_at p write phys) now r in
      (moment : ℕ) × (answered : ℕ) × (now ≤ moment)
      × (answered ≤ moment)
      × ((t : ℕ) → t < moment → (poll g t r).0 ≡ none)
      × ((t : ℕ)
          → moment ≤ t
          → (poll g t r).0
            ≡ some (record {
              timed_out = misses_decode r;
              responder = r;
              at = moment;
              answered_at = answered;
              cached = g.memory;
            }))
mclk_edge-poll p write phys now r h =
    let q = request_at p write phys in
    let f = request_at-fields p write phys in
    let g = mclk_edge-granted q now r f.0 (omega (arith, f.1, f.2)) in
    let edge = mclk_edge q now r in
    (
      g.0,
      g.1,
      g.3,
      g.4,
      (λ t early. poll-early edge g.0 g.1 t (misses_decode r) r g.2 early),
      (λ t due. poll-due edge g.0 g.1 t (misses_decode r) r g.2 due),
    )

read-config : (c : Cache) (phys : ℕ) → (read c phys).1.config ≡ c.config
unfolding read
read-config c phys = ground arith

memory_cycle-read :
    (p : MemoryPort) (now : ℕ)
    → p.write ≡ false
    → let q = (memory_cycle p now).1 in
      (q.cache ≡ (read p.cache p.addr).1) × (q.addr ≡ p.addr) × (q.write ≡ false)
unfolding memory_cycle fill_ns
memory_cycle-read p now reads = ground (arith, reads)

memory_cycle-hit :
    (q : MemoryPort) (now : ℕ)
    → q.write ≡ false
    → (read q.cache q.addr).0 ≡ true
    → let r = memory_cycle q now in
      (r.0 ≡ now + q.cache.config.hit_ns) × (r.1.memory_free_at ≡ q.memory_free_at)
unfolding memory_cycle
memory_cycle-hit q now reads hit = ground (arith, reads, hit)

-- A main-memory read, in a cache with a way and the set of the word's line, leaves the line held:
-- the same read, taken at a later edge, is acknowledged after the hit time, and main memory is not
-- used.
pub memory_cycle-read_again :
    (p : MemoryPort) (now later : ℕ)
    → p.write ≡ false
    → 1 ≤ p.cache.config.ways
    → set_of p.cache.config (line_of p.cache.config p.addr) < length p.cache.sets
    → let first = (memory_cycle p now).1 in
      let again = memory_cycle first later in
      (again.0 ≡ later + p.cache.config.hit_ns) × (again.1.memory_free_at ≡ first.memory_free_at)
memory_cycle-read_again p now later reads way fits =
    let q = (memory_cycle p now).1 in
    let f = memory_cycle-read p now reads in
    let hit = ap₂ (λ c a. (read c a).0) f.0 f.1 ∙ (read-holds p.cache p.addr way fits).2 in
    let again = memory_cycle-hit q later f.2 hit in
    let same : q.cache.config.hit_ns ≡ p.cache.config.hit_ns =
      ap (λ (c : Cache). c.config.hit_ns) f.0
      ∙ ap (λ (g : CacheConfig). g.hit_ns) (read-config p.cache p.addr) in
    (again.0 ∙ ap (λ ns. later + ns) same, again.1)
