-- ===== src/Micro/Stack/Examples.antt =====
-- A call from an empty microcode stack.
use muir.Base.{◌≡◌, arith, false, none}
use muir.Micro.Stack.{Stack, push_spc, pop_spc, land_spc, begin}
use muir.Micro.Stack.Calls.{pop_spc-push_spc}

abbrev empty : Stack
empty = record {
  spcptr = 31;
  spc = λ a. 0;
  spc_write = none;
  pushed = false;
  spc_pushed = false;
  spc_popped = false;
}

pop_spc-push_spc_example :
    let called = begin (push_spc (begin empty) 0o1234) in
    let r = pop_spc (land_spc called) in
    (r.0 ≡ 0o1234)
    × (r.1.spcptr ≡ 31)
    × ((pop_spc called).0 ≡ 0o1234)
    × ((pop_spc called).1.spcptr ≡ 31)
pop_spc-push_spc_example = pop_spc-push_spc empty 0o1234 (omega arith)
