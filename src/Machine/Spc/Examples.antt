-- ===== src/Machine/Spc/Examples.antt =====
-- Three calls from a pointer near the ring's end.
use muir.Base.{[], ◌∷◌, ◌≡◌, arith}
use muir.Machine.Spc.{Spc}
use muir.Machine.Spc.Stack.{push_all, pop_all, pop_all-push_all}

abbrev near_end : Spc
near_end = record { spcptr = 30; spc = λ i. 0 }

pop_all-push_all_example :
    let r = pop_all 3 (push_all near_end (1 ∷ 2 ∷ 3 ∷ [])) in
    (r.0 ≡ 3 ∷ 2 ∷ 1 ∷ []) × (r.1.spcptr ≡ 30)
pop_all-push_all_example = pop_all-push_all near_end (1 ∷ 2 ∷ 3 ∷ []) (omega arith) (omega arith)
