-- ===== src/Micro/Stack/Calls.antt =====
-- Calls and returns on the microcode stack, across the microcycles that a word takes to land.
use muir.Base.{ℕ, ◌<◌, ◌≡◌, arith, false, bit}
use muir.Micro.Stack.{Stack, push_spc, pop_spc, land_spc, begin, ignpopj, up}

-- A call in one microcycle and a return in the next: the word is the call's, whether it has landed
-- or not, and the pointer comes back.
pub pop_spc-push_spc :
    (s : Stack) (w : ℕ)
    → s.spcptr < 32
    → let called = begin (push_spc (begin s) w) in
      let r = pop_spc (land_spc called) in
      (r.0 ≡ w)
      × (r.1.spcptr ≡ s.spcptr)
      × ((pop_spc called).0 ≡ w)
      × ((pop_spc called).1.spcptr ≡ s.spcptr)
unfolding push_spc pop_spc land_spc
pop_spc-push_spc s w h = (ground arith, ground arith, ground arith, ground arith)

-- A return and a call of one microcycle, in either order: the pointer counts up from what it was
-- before them, as it does for the call alone.
pub push_spc-pop_spc :
    (s : Stack) (w : ℕ)
    → s.spcptr < 32
    → ((push_spc (pop_spc (begin s)).1 w).spcptr ≡ up s.spcptr)
      × ((pop_spc (push_spc (begin s) w)).1.spcptr ≡ up s.spcptr)
unfolding push_spc pop_spc
push_spc-pop_spc s w h = (ground arith, ground arith)

-- `IGNPOPJ` undoes a return that the dispatch entry does not take.
pub ignpopj-pop_spc :
    (s : Stack) (entry : ℕ)
    → s.spcptr < 32
    → bit entry 16 ≡ false
    → (ignpopj (pop_spc (begin s)).1 entry).spcptr ≡ s.spcptr
unfolding ignpopj pop_spc
ignpopj-pop_spc s entry h e = ground arith
