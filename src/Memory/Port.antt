-- ===== src/Memory/Port.antt =====
-- src/memory_port.rs: QUUX's memory port, a cycle's state and times, and the prefetch of the
-- next macroinstruction word. The prefetch's counts, kept for a profile, are left out.
mod Shape
pub mod Cycles
pub mod Coherence
pub mod Transfers
pub mod Runs
pub mod Saves
mod Examples
pub use Shape.*
use muir.Base.{ℕ, ◌+◌, ◌*◌, ◌/◌, ◌%◌, ◌^◌, ltb, leb, max, ◌==◌, Bool, true, false, not, ◌&&◌, ◌||◌}
use muir.Base.{if◌then◌else◌, Option, some, none, List, get_or, length, low_bits}
use muir.Memory.Cache.{CacheConfig, Cache, quux, new, holds, invalidate, read}
use muir.Memory.Cycle.{TimingModel, normal, sync, cycle_ns, grid_ns}

pub record MemoryPort : Type 0 where
  pub state : State
  pub write : Bool
  pub addr : ℕ
  pub memory : Bool
  pub cache : Cache
  pub timing : MemoryTiming
  pub memory_free_at : ℕ
  pub buffer_free_at : ℕ
  pub model : TimingModel
  pub prefetch : Option Reach
  pub prefetched : Option Prefetched
  pub fetch_vaddr : Option ℕ
  pub layout : Layout

abbrev pub with_layout : Layout → MemoryPort
with_layout layout = record {
  state = idle;
  write = false;
  addr = 0;
  memory = false;
  cache = new (layout_cache layout quux);
  timing = nominal;
  memory_free_at = 0;
  buffer_free_at = 0;
  model = sync 4 0;
  prefetch = none;
  prefetched = none;
  fetch_vaddr = none;
  layout = layout;
}

abbrev pub for_geometry : Bool → MemoryPort
for_geometry wide =
    if wide
    then record (with_layout layout_13) { prefetch = some to_page }
    else with_layout layout_12

abbrev pub set_prefetch : MemoryPort → Option Reach → MemoryPort
set_prefetch p reach = record p { prefetch = reach; prefetched = none }

abbrev pub mark_fetch : MemoryPort → ℕ → MemoryPort
mark_fetch p vaddr = record p { fetch_vaddr = some (low_bits vaddr p.layout.vaddr_bits) }

abbrev pub drop_prefetched : MemoryPort → MemoryPort
drop_prefetched p = record p { prefetched = none }

abbrev pub set_cache : MemoryPort → CacheConfig → MemoryPort
set_cache p config = record p { cache = new (layout_cache p.layout config) }

abbrev pub set_memory_timing : MemoryPort → MemoryTiming → MemoryPort
set_memory_timing p timing = record p { timing = timing }

abbrev pub is_page : Reach → Bool
is_page to_line = false
is_page to_page = true

-- The prefetch's part of a read answered, of main memory's words.
unfoldable pub read_answered : MemoryPort → List ℕ → MemoryPort
read_answered p main = elim p.fetch_vaddr [
  | none ↦ p
  | some vaddr ↦ elim p.prefetch [
    | none ↦ record p { fetch_vaddr = none }
    | some reach ↦
        if not p.memory || p.write
        then record p { fetch_vaddr = none }
        else let next = p.addr + 1 in
          let same_line = not (next % p.cache.config.line_words == 0) in
          if (next % p.layout.page_words == 0) || leb (length main) next
          then record p { fetch_vaddr = none; prefetched = none }
          else if not same_line && (not (is_page reach) || not (holds p.cache next))
          then record p { fetch_vaddr = none; prefetched = none }
          else record p {
            fetch_vaddr = none;
            prefetched = some (record {
              vaddr = low_bits (vaddr + 1) p.layout.vaddr_bits;
              phys = next;
              word = get_or main next 0;
            });
          }
  ]
]

unfoldable pub invalidate_cache : MemoryPort → MemoryPort
invalidate_cache p = drop_prefetched (record p { cache = invalidate p.cache })

abbrev pub prefetched_at : MemoryPort → ℕ → Bool
prefetched_at p phys = elim p.prefetched [ none ↦ false | some w ↦ w.phys == phys ]

-- `request_at`, of a port that is idle, as the source asserts.
unfoldable pub request_at : MemoryPort → Bool → ℕ → MemoryPort
request_at p write phys =
    let asked = record p {
      state = requested;
      write = write;
      addr = phys;
      memory = false;
      fetch_vaddr = none;
    } in
    if write && prefetched_at p phys then drop_prefetched asked else asked

-- What answers: main memory, a device register, or any other responder, which the port takes as
-- nothing there.
pub data Responder : Type 0 where
  memory_at : ℕ → Responder
  device nothing_there : Responder

abbrev pub window_13 : ℕ
window_13 = 63 * 2 ^ 22

abbrev pub beats : Bool → Bool → ℕ
beats false in_window = 0
beats true false = 3
beats true true = 2

unfoldable pub fill_ns : MemoryPort → ℕ
fill_ns p = p.timing.read_ns + beats p.layout.more_beats (leb window_13 p.addr) * grid_ns

-- The board's operation at `now`: when it is done.
abbrev pub board_done : MemoryPort → ℕ → ℕ
unfolding fill_ns
board_done p now = max now p.memory_free_at + (if p.write then p.timing.write_ns else fill_ns p)

-- The part of `memory_cycle` past the cache, a miss or a write.
abbrev pub board_cycle : MemoryPort → ℕ → ℕ × MemoryPort
unfolding fill_ns
board_cycle p now =
    let done = board_done p now in
    if p.write && p.cache.config.write_buffer
    then (
      max (now + p.cache.config.hit_ns) p.buffer_free_at,
      record p { memory_free_at = done; buffer_free_at = done },
    )
    else (done, record p { memory_free_at = done })

-- `memory_cycle`: when the cycle taken at `now` is acknowledged.
unfoldable pub memory_cycle : MemoryPort → ℕ → ℕ × MemoryPort
unfolding fill_ns
memory_cycle p now =
    if p.write
    then board_cycle p now
    else let r = read p.cache p.addr in
      let looked = record p { cache = r.1 } in
      if r.0 then (now + p.cache.config.hit_ns, looked) else board_cycle looked now

unfoldable pub mclk_edge : MemoryPort → ℕ → Responder → MemoryPort
unfolding memory_cycle fill_ns
mclk_edge p now responder = elim p.state [
  | requested ↦ elim responder [
    | memory_at _ ↦
        let r = memory_cycle (record p { memory = true }) now in
        record r.1 { state = granted r.0 r.0 false }
    | device ↦ record p {
      memory = false;
      state = granted (now + cycle_ns p.model normal false) now false;
    }
    | nothing_there ↦ record p { memory = false; state = granted now now true }
  ]
  | idle ↦ p
  | granted _ _ _ ↦ p
  | acked _ _ _ ↦ p
]

-- The responder is the caller's; the two times that the port gives alike are one field.
pub record Ack : Type 0 where
  pub timed_out : Bool
  pub responder : Responder
  pub at : ℕ
  pub answered_at : ℕ
  pub cached : Bool

abbrev pub advance : State → ℕ → State
advance (granted at answered timed_out) now =
    if leb at now then acked at answered timed_out else granted at answered timed_out
advance idle now = idle
advance requested now = requested
advance (acked at answered timed_out) now = acked at answered timed_out

abbrev pub ack_of : State → Responder → Bool → Option Ack
ack_of (acked at answered timed_out) responder memory = some (record {
  timed_out = timed_out;
  responder = responder;
  at = at;
  answered_at = answered;
  cached = memory;
})
ack_of idle responder memory = none
ack_of requested responder memory = none
ack_of (granted _ _ _) responder memory = none

unfoldable pub poll : MemoryPort → ℕ → Responder → Option Ack × MemoryPort
poll p now responder =
    let state = advance p.state now in (ack_of state responder p.memory, record p { state = state })

abbrev pub ack_at : MemoryPort → Option ℕ
ack_at p = elim p.state [
  | idle ↦ none
  | requested ↦ none
  | granted at _ _ ↦ some at
  | acked at _ _ ↦ some at
]

abbrev pub answered_at : MemoryPort → Option ℕ
answered_at p = elim p.state [
  | idle ↦ none
  | requested ↦ none
  | granted _ answered _ ↦ some answered
  | acked _ answered _ ↦ some answered
]

abbrev pub finish : MemoryPort → MemoryPort
finish p = record p { state = idle }
