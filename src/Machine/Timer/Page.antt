-- ===== src/Machine/Timer/Page.antt =====
-- The timers' words of the register page.
use muir.Base.{ℕ, ◌+◌, ◌-◌, ◌/◌, ◌%◌, ◌^◌, ◌≤◌, ◌<◌, [], ◌∷◌, true, ◌≡◌, ◌≢◌}
use muir.Base.{arith, bit, some, ◌==◌, not}
use muir.Base.{get_or, length, get_or-set_self, get_or-set_ne}
use muir.Machine.Timer.{
  IntervalTimer, Timers, flag, interrupt, status, word, read, write, write_period,
}
use muir.Machine.Timer.{interrupt_sources, pending, reset}

-- The status word shows the four facts of the timer, each at its bit, and nothing else.
pub status-bits :
    (t : IntervalTimer) (now : ℕ)
    → (bit (status t now) 0 ≡ t.on)
      × (bit (status t now) 1 ≡ flag t now)
      × (bit (status t now) 2 ≡ t.one_shot)
      × (bit (status t now) 8 ≡ t.interrupt_enable)
      × (status t now < 2 ^ 9)
unfolding status
status-bits t now = ground arith

-- Word 100's bits say that a timer interrupts exactly when one does.
pub pending-sources :
    (a b c : IntervalTimer) (now : ℕ)
    → let ts = a ∷ b ∷ c ∷ [] in
      (bit (interrupt_sources ts now) 0 ≡ interrupt a now)
      × (bit (interrupt_sources ts now) 1 ≡ interrupt b now)
      × (bit (interrupt_sources ts now) 2 ≡ interrupt c now)
      × (pending ts now ≡ not (interrupt_sources ts now == 0))
unfolding interrupt_sources pending
pending-sources a b c now = ground arith

-- A period written through the page is read back with its 24 bits, and the other timers' words
-- read as before.
pub read-write_period :
    (timers : Timers) (w w' v now : ℕ)
    → length timers ≡ 3
    → 0o110 ≤ w
    → w ≤ 0o115
    → bit w 0 ≡ true
    → w' ≢ w
    → (w' + 1) ≢ w
    → (read (write timers w v now).0 w now ≡ some (v % 2 ^ 24))
      × (read (write timers w v now).0 w' now ≡ read timers w' now)
unfolding read write word write_period
read-write_period timers w w' v now hl lo hi odd ne ne' =
    let k = (w - 0o110) / 2 in
    let t = write_period (get_or timers k reset) now v in
    ground
      (arith, get_or-set_self timers k t reset, get_or-set_ne timers k ((w' - 0o110) / 2) t reset)
