-- ===== src/Machine/Spc/Stack.antt =====
-- The microcode stack behaves as a stack as long as it is no deeper than its ring.
use muir.Base.{
  ℕ, zero, suc, ◌+◌, ◌-◌, ◌%◌, ◌^◌, ◌≤◌, ◌<◌, List, [], ◌∷◌, ◌++◌, ◌≡◌, refl, ap, ap₂, ◌∙◌,
}
use muir.Base.{arith, length, sym, subst, ◌*◌, reverse, length-reverse}
use mathlib.Core.Path.{subst₂}
use mathlib.Core.List.{reverse-append, append_assoc, append-nil}
use muir.Base.Memory.{Memory, update, update_self, update_ne}
use muir.Machine.Spc.{Spc, push_spc, pop_spc}

-- Calls nested one in another: each word pushed in turn.
abbrev pub push_all : Spc → List ℕ → Spc
push_all s [] = s
push_all s (x ∷ xs) = push_all (push_spc s x) xs

-- As many returns, the words in the order that they come off.
abbrev pub pop_all : ℕ → Spc → List ℕ × Spc
pop_all zero s = ([], s)
pop_all (suc n) s = let (x, s') = pop_spc s in let (xs, s'') = pop_all n s' in (x ∷ xs, s'')

-- The slot of the `i`th word from the top, above `p`.
abbrev slot : ℕ → ℕ → ℕ
slot p i = (p + i) % 32

abbrev below : ℕ → ℕ
below p = (p + 31) % 32

-- The words from the pointer down, top first.
abbrev Holds : Memory → ℕ → List ℕ → Type 0
Holds m p [] = Unit {0}
Holds m p (y ∷ ys) = (m p ≡ y) × Holds m (below p) ys

-- A write `k` slots above the pointer's next leaves a stack that is not that deep.
Holds-update :
    (m : Memory) (p k x : ℕ) (ys : List ℕ)
    → p < 32
    → k + length ys < 32
    → Holds m p ys
    → Holds (update m ((p + 1 + k) % 32) x) p ys
Holds-update m p k x [] hp h held = tt
Holds-update m p k x (y ∷ ys) hp h held = (
  update_ne m ((p + 1 + k) % 32) p x (omega arith) ∙ held.0,
  subst (λ j. Holds (update m j x) (below p) ys) shifted
      (Holds-update m (below p) (k + 1) x ys (omega arith) (omega arith) held.1),
)
  where
    shifted : (below p + 1 + (k + 1)) % 32 ≡ (p + 1 + k) % 32
    shifted = omega arith

push_spc-Holds :
    (s : Spc) (x : ℕ) (ys : List ℕ)
    → s.spcptr < 32
    → length ys < 32
    → Holds s.spc s.spcptr ys
    → Holds (push_spc s x).spc (push_spc s x).spcptr (x ∷ ys)
unfolding push_spc
push_spc-Holds s x ys hp h held = (
  update_self s.spc ((s.spcptr + 1) % 32) _ x refl,
  subst₂ (λ j q. Holds (update s.spc j x) q ys) same_slot under
      (Holds-update s.spc s.spcptr 0 x ys hp (omega arith) held),
)
  where
    same_slot : (s.spcptr + 1 + 0) % 32 ≡ (s.spcptr + 1) % 32
    same_slot = omega arith

    under : s.spcptr ≡ below ((s.spcptr + 1) % 32)
    under = omega arith

push_spc-spcptr : (s : Spc) (x : ℕ) → (push_spc s x).spcptr ≡ (s.spcptr + 1) % 32
unfolding push_spc
push_spc-spcptr s x = refl

push_all-Holds :
    (s : Spc) (xs ys : List ℕ)
    → s.spcptr < 32
    → length xs + length ys ≤ 32
    → Holds s.spc s.spcptr ys
    → Holds (push_all s xs).spc (push_all s xs).spcptr (reverse xs ++ ys)
push_all-Holds s [] ys hp h held = held
push_all-Holds s (x ∷ xs) ys hp h held =
    subst (Holds (push_all (push_spc s x) xs).spc (push_all (push_spc s x) xs).spcptr)
      (sym (ap (λ t. t ++ ys) (reverse-append (x ∷ []) xs) ∙ append_assoc (reverse xs) (x ∷ []) ys))
      (push_all-Holds (push_spc s x) xs (x ∷ ys) (omega (arith, push_spc-spcptr s x)) (omega arith)
        (push_spc-Holds s x ys hp (omega arith) held))

push_all-spcptr :
    (s : Spc) (xs : List ℕ) → s.spcptr < 32 → (push_all s xs).spcptr ≡ (s.spcptr + length xs) % 32
push_all-spcptr s [] hp = omega arith
push_all-spcptr s (x ∷ xs) hp =
    push_all-spcptr (push_spc s x) xs (omega (arith, push_spc-spcptr s x))
    ∙ omega (arith, push_spc-spcptr s x)

pop_all-Holds :
    (s : Spc) (ys : List ℕ)
    → s.spcptr < 32
    → Holds s.spc s.spcptr ys
    → ((pop_all (length ys) s).0 ≡ ys)
      × ((pop_all (length ys) s).1.spcptr ≡ (s.spcptr + 31 * length ys) % 32)
unfolding pop_spc
pop_all-Holds s [] hp held = (refl, omega arith)
pop_all-Holds s (y ∷ ys) hp held =
    let p' = (s.spcptr + 2 ^ 8 - 1) % 2 ^ 8 % 2 ^ 5 in
    let under : below s.spcptr ≡ p' = omega arith in
    let rest =
      pop_all-Holds (record s { spcptr = p' }) ys (omega arith)
        (subst (λ q. Holds s.spc q ys) under held.1) in
    (ap₂ ◌∷◌ held.0 rest.0, rest.1 ∙ omega arith)

-- Up to thirty-two nested calls return in order: popping as many words as were pushed gives them
-- back last first and leaves the pointer where it was.
pub pop_all-push_all :
    (s : Spc) (xs : List ℕ)
    → s.spcptr < 32
    → length xs ≤ 32
    → let r = pop_all (length xs) (push_all s xs) in (r.0 ≡ reverse xs) × (r.1.spcptr ≡ s.spcptr)
pop_all-push_all s xs hp h =
    (ap (λ n. (pop_all n top).0) count ∙ popped.0, ap (λ n. (pop_all n top).1.spcptr) count ∙ back)
  where
    top : Spc
    top = push_all s xs

    count : length xs ≡ length (reverse xs)
    count = sym (length-reverse xs)

    top-lt : (push_all s xs).spcptr < 32
    top-lt = omega (arith, push_all-spcptr s xs hp)

    popped :
        ((pop_all (length (reverse xs)) top).0 ≡ reverse xs)
        × ((pop_all (length (reverse xs)) top).1.spcptr
            ≡ (top.spcptr + 31 * length (reverse xs)) % 32)
    popped = pop_all-Holds top (reverse xs) top-lt (
        subst (Holds top.spc top.spcptr) (append-nil (reverse xs))
          (push_all-Holds s xs [] hp (omega arith) tt))

    back : (pop_all (length (reverse xs)) top).1.spcptr ≡ s.spcptr
    back = popped.1 ∙ omega (arith, push_all-spcptr s xs hp, length-reverse xs)
