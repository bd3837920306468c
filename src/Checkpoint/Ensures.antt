-- ===== src/Checkpoint/Ensures.antt =====
-- What holds of every value that a reader's method gives, whatever the file's bytes.
use muir.Base.{◌≡◌, refl, Bool, true, false, if◌then◌else◌, subst}
use muir.Checkpoint.{Result, ok, err}
use muir.Checkpoint.Reader.{Reader, Get, and_then, pure}

-- `P` of what `get` gives, where it gives anything.
abbrev pub Gives {ℓ κ} : {A : Type ℓ} → (A → Type κ) → Result (A × Reader) → Type κ
Gives P (ok (a, r)) = P a
Gives {A} P (err e) = Unit {_}

abbrev pub Ensures {ℓ κ} : {A : Type ℓ} → (A → Type κ) → Get A → Type κ
Ensures P get = (r : Reader) → Gives P (get r)

Gives-any {ℓ} : {A : Type ℓ} (x : Result (A × Reader)) → Gives (λ a. Unit {0}) x
Gives-any (ok (a, r)) = tt
Gives-any (err e) = tt

-- Nothing is asked.
pub Ensures-any {ℓ} : {A : Type ℓ} (get : Get A) → Ensures (λ a. Unit {0}) get
Ensures-any get r = Gives-any (get r)

module _ {ℓ κ} {A : Type ℓ} (P : A → Type κ) where
  pub Ensures-pure : {a : A} → P a → Ensures P (pure a)
  Ensures-pure h r = h

  pub Ensures-if :
      (b : Bool) (g g' : Get A)
      → (b ≡ true → Ensures P g)
      → (b ≡ false → Ensures P g')
      → Ensures P (if b then g else g')
  Ensures-if true g g' h h' = h refl
  Ensures-if false g g' h h' = h' refl

  Gives-bind {ℓ' κ'} :
      {B : Type ℓ'} (Q : B → Type κ') (x : Result (B × Reader)) (k : B → Get A)
      → Gives Q x
      → ((b : B) → Q b → Ensures P (k b))
      → Gives P (and_then x k)
  Gives-bind Q (ok (b, r)) k h hk = hk b h r
  Gives-bind Q (err e) k h hk = tt

  pub Ensures-bind {ℓ' κ'} :
      {B : Type ℓ'} (Q : B → Type κ') (g : Get B) (k : B → Get A)
      → Ensures Q g
      → ((b : B) → Q b → Ensures P (k b))
      → Ensures P (λ r. and_then (g r) k)
  Ensures-bind Q g k hg hk r = Gives-bind Q (g r) k (hg r) hk

  -- A step of which nothing is asked.
  pub Ensures-then {ℓ'} :
      {B : Type ℓ'} (g : Get B) (k : B → Get A)
      → ((b : B) → Ensures P (k b))
      → Ensures P (λ r. and_then (g r) k)
  Ensures-then g k hk = Ensures-bind (λ b. Unit {0}) g k (Ensures-any g) (λ b u. hk b)

  pub Ensures-ok :
      (get : Get A) → Ensures P get → (r r' : Reader) (a : A) → get r ≡ ok (a, r') → P a
  Ensures-ok get h r r' a e = subst (Gives P) e (h r)
