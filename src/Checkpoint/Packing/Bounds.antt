-- ===== src/Checkpoint/Packing/Bounds.antt =====
-- `unpack` comes to an end on every input, and what it gives is bounded.
use muir.Base.{ℕ, zero, suc, ◌+◌, ◌-◌, ◌≤◌, ◌<◌, ◌≡◌, ◌≢◌, refl, subst}
use muir.Base.{Bool, true, false, List, [], ◌∷◌, ◌++◌, arith, length, leb, bit}
use muir.Base.{take, drop, replicate, length-drop, length-append, length-take-le, length-replicate}
use muir.Checkpoint.{
  Error, Result, ok, err, ◌>>=◌, ◌>>◌, guard, literals_run_off, zeros_past, out_of_fuel,
}
use muir.Checkpoint.Packing.{unvarint_groups, unpack, unpack_turns, max_body}

-- What is left is shorter than `k`, or the error is a file's.
abbrev Shorter : ℕ → Result (ℕ × List ℕ) → Type 0
Shorter k (ok (v, rest)) = length rest < k
Shorter k (err e) = e ≢ out_of_fuel

abbrev AtMost : ℕ → Result (List ℕ) → Type 0
AtMost k (ok body) = length body ≤ k
AtMost k (err e) = e ≢ out_of_fuel

AtMost-bind :
    (k l : ℕ) (r : Result (ℕ × List ℕ)) (f : ℕ × List ℕ → Result (List ℕ))
    → Shorter k r
    → ((v : ℕ) (rest : List ℕ) → length rest < k → AtMost l (f (v, rest)))
    → AtMost l (r >>= f)
AtMost-bind k l (ok (v, rest)) f s h = h v rest s
AtMost-bind k l (err e) f s h = s

AtMost-guard :
    (l : ℕ) (b : Bool) (e : Error) (r : Result (List ℕ))
    → e ≢ out_of_fuel
    → (b ≡ true → AtMost l r)
    → AtMost l (guard b e >> r)
AtMost-guard l true e r ne h = h refl
AtMost-guard l false e r ne h = ne

Shorter-either :
    (k : ℕ) (b : Bool) (more last : Result (ℕ × List ℕ))
    → Shorter k more
    → Shorter k last
    → Shorter k (elim b [ true ↦ more | false ↦ last ])
Shorter-either k true more last p q = p
Shorter-either k false more last p q = q

Shorter-suc : (k : ℕ) (r : Result (ℕ × List ℕ)) → Shorter k r → Shorter (suc k) r
Shorter-suc k (ok (v, rest)) h = omega arith
Shorter-suc k (err e) h = h

unvarint_groups-Shorter :
    (n s v : ℕ) (bytes : List ℕ) → Shorter (length bytes) (unvarint_groups n s v bytes)
unfolding unvarint_groups
unvarint_groups-Shorter zero s v bytes = λ e. cc
unvarint_groups-Shorter (suc n) s v [] = λ e. cc
unvarint_groups-Shorter (suc n) s v (byte ∷ rest) =
    Shorter-either (suc (length rest)) (bit byte 7) _ _
      (Shorter-suc (length rest) _ (unvarint_groups-Shorter n (s + 7) _ rest)) (omega arith)

AtMost-mono : {k l : ℕ} → k ≤ l → (r : Result (List ℕ)) → AtMost k r → AtMost l r
AtMost-mono h (ok body) p = omega arith
AtMost-mono h (err e) p = p

length-turn :
    (zeros count : ℕ) (out rest : List ℕ)
    → length (out ++ replicate zeros 0 ++ take count rest) ≤ length out + zeros + count
length-turn zeros count out rest = omega (
  arith,
  length-append {0} (out ++ replicate zeros 0) (take count rest),
  length-append {0} out (replicate zeros 0),
  length-replicate zeros zero,
  length-take-le count rest,
)

-- The bound is that of the zeros, with the literals that are still to come.
unpack_turns-AtMost :
    (n k : ℕ) (out packed : List ℕ)
    → length packed < n
    → length out ≤ max_body + k
    → AtMost (max_body + (k + length packed)) (unpack_turns n out packed)
unfolding unpack_turns
unpack_turns-AtMost zero k out packed fuel h = absurd (omega arith)
unpack_turns-AtMost (suc n) k out [] fuel h = omega arith
unpack_turns-AtMost (suc n) k out (b ∷ bs) fuel h =
    AtMost-bind (suc (length bs)) _ _ _ (unvarint_groups-Shorter 10 0 0 (b ∷ bs)) (λ zeros after s.
      AtMost-bind (length after) _ _ _ (unvarint_groups-Shorter 10 0 0 after) (λ count rest t.
        let limit = max_body + (k + length (b ∷ bs)) in
        let out' = out ++ replicate zeros 0 ++ take count rest in
        let body = unpack_turns n out' (drop count rest) in
        let fits = leb count (length rest) in
        let room = leb zeros (max_body - length out) in
        AtMost-guard limit fits literals_run_off (guard room (zeros_past zeros) >> body) (λ e. cc)
          (λ f.
            AtMost-guard limit room (zeros_past zeros) body (λ e. cc)
              (λ g.
                let size = length-turn zeros count out rest in
                let short = length-drop {0} count rest in
                let le : count ≤ length rest = ground arith in
                let more : length out' ≤ max_body + (k + count) = ground arith in
                AtMost-mono (omega arith) body
                  (unpack_turns-AtMost n (k + count) out' (drop count rest) (omega arith) more)))))

unpack-AtMost : (packed : List ℕ) → AtMost (max_body + length packed) (unpack packed)
unpack-AtMost packed =
    AtMost-mono (omega arith) (unpack packed)
      (unpack_turns-AtMost (suc (length packed)) 0 [] packed (omega arith) (omega arith))

-- A body is at most 2^32 bytes and the literals of its packed form: no count, however large,
-- makes room for more.
pub unpack-bound :
    (packed body : List ℕ) → unpack packed ≡ ok body → length body ≤ max_body + length packed
unpack-bound packed body e = subst (AtMost (max_body + length packed)) e (unpack-AtMost packed)

-- The fuel of `unpack` is enough: on every input it gives a body or one of the file's errors.
pub unpack-ends : (packed : List ℕ) → unpack packed ≢ err out_of_fuel
unpack-ends packed e = subst (AtMost (max_body + length packed)) e (unpack-AtMost packed) refl
