-- ===== src/Microcode.antt =====
-- src/mcr.rs and src/prom.rs: microcode files and the boot PROMs that are made of them. The
-- errors are values, without their messages' texts.
pub mod Mcr
pub mod Prom
use muir.Base.{ℕ, Bool, true, false, ◌≢◌, ◌≡◌, refl, if◌then◌else◌}

pub data Error : Type 0 where
  short_read bits_above_48 bad_dispatch_size a_memory_start unknown_code not_whole_words : ℕ → Error
  past_control_store high_word : ℕ → ℕ → Error
  mit_order no_program out_of_fuel : Error
  too_many_words not_at_zero statistics_bit below_base nothing_at_base : ℕ → Error

-- `Result<T, String>`, with the errors above.
pub data Result {ℓ} (T : Type ℓ) : Type ℓ where
  ok : T → Result T
  err : Error → Result T

-- The refusal of what a test finds.
abbrev pub refuse : Bool → Error → Result (Unit {0})
refuse true found = err found
refuse false found = ok tt

infixl 5 ◌>>=◌
abbrev pub ◌>>=◌ {ℓ κ} : {T : Type ℓ} {U : Type κ} → Result T → (T → Result U) → Result U
err found >>= k = err found
ok value >>= k = k value

infixl 5 ◌>>◌
abbrev pub ◌>>◌ {κ} : {U : Type κ} → Result (Unit {0}) → Result U → Result U
first >> next = first >>= λ done. next

-- `P` of what there is, and no fuel used up.
abbrev pub Ensures {ℓ} : {A : Type ℓ} → (A → Type 0) → Result A → Type 0
Ensures P (ok a) = P a
Ensures P (err e) = e ≢ out_of_fuel

module _ {ℓ} {A : Type ℓ} (P : A → Type 0) where
  pub Ensures-bind {κ} :
      {B : Type κ} (Q : B → Type 0) (x : Result B) (f : B → Result A)
      → Ensures Q x
      → ((b : B) → Q b → Ensures P (f b))
      → Ensures P (x >>= f)
  Ensures-bind Q (ok b) f h k = k b h
  Ensures-bind Q (err e) f h k = h

  pub Ensures-refuse :
      (b : Bool) (e : Error) (x : Result A)
      → e ≢ out_of_fuel
      → (b ≡ false → Ensures P x)
      → Ensures P (refuse b e >> x)
  Ensures-refuse true e x ne h = ne
  Ensures-refuse false e x ne h = h refl

  pub Ensures-if :
      (b : Bool) (x y : Result A) → Ensures P x → Ensures P y → Ensures P (if b then x else y)
  Ensures-if true x y h k = h
  Ensures-if false x y h k = k
