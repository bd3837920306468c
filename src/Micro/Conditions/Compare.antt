-- ===== src/Micro/Conditions/Compare.antt =====
-- The comparisons that a jump tests.
use muir.Base.{
  ℕ, zero, suc, ◌≤◌, if◌then◌else◌, get_or, ◌≡◌, refl, ◌∙◌, arith, Bool, true, false, not, ◌&&◌,
  ◌==◌, bit, low_bits,
}
use muir.Base.Int.{leb_ℤ, signed32}
use muir.Micro.Shifter.{rol}
use muir.Processor.Alu.{Alu}
use muir.Processor.Alu.Compare.{alu_jump}
use muir.Micro.Counter.{Counter}
use muir.Micro.State.{DataPath}
use muir.Micro.Arithmetic.{field, array, control, rotation}
use muir.Micro.Shifter.{rol}
use muir.Micro.Conditions.{Signals, tested_or, conditions, condition_narrow}

-- The array of a jump: whether the sources are equal, and whether M is at most A, signed.
array-jump :
    (p : DataPath) (raw : ℕ)
    → let r = array p raw (control p raw false) in
      let m = low_bits p.mdata 32 in
      let a = low_bits p.adata 32 in
      (r.aeqm ≡ (m == a)) × (bit r.f 32 ≡ leb_ℤ (signed32 m) (signed32 a))
unfolding array control
array-jump p raw =
    alu_jump raw (low_bits p.mdata 32) (low_bits p.adata 32) (bit p.q 0) (bit p.adata 31)
      (omega arith) (omega arith)

-- What the conditions 1 to 3 are, signed.
abbrev pub compared : ℕ → ℕ → ℕ → Bool
compared code m a =
    if code == 1
    then not (m == a) && leb_ℤ (signed32 m) (signed32 a)
    else if code == 2
    then leb_ℤ (signed32 m) (signed32 a)
    else m == a

selected :
    (code : ℕ) (t e o : Bool) (a : Alu) (s : Signals)
    → a.aeqm ≡ e
    → bit a.f 32 ≡ o
    → 1 ≤ code
    → code ≤ 3
    → get_or (conditions t a a.aeqm s) code true
      ≡ (if code == 1 then not e && o else if code == 2 then o else e)
selected zero t e o a s he ho h k = absurd (omega arith)
selected (suc zero) t e o a s he ho h k = rw (he, ho) refl
selected (suc (suc zero)) t e o a s he ho h k = ho
selected (suc (suc (suc zero))) t e o a s he ho h k = he
selected (suc (suc (suc (suc n)))) t e o a s he ho h k = absurd (omega arith)

picked : (b : Bool) (x y : Bool × ℕ) → b ≡ true → (tested_or b x y).0 ≡ y.0
picked true x y h = refl
picked false x y h = absurd (ground arith)

-- The conditions 1, 2 and 3 of a CADR's jump compare the two sources as signed 32-bit numbers: M
-- less than A, M at most A, and M equal to A, whatever the rest of the instruction and of the
-- machine.
pub condition_narrow-compare :
    (c : Counter) (s : Signals) (p : DataPath) (raw : ℕ)
    → bit raw 5 ≡ true
    → 1 ≤ field raw 0 3
    → field raw 0 3 ≤ 3
    → (condition_narrow c s p raw).0
      ≡ compared (field raw 0 3) (low_bits p.mdata 32) (low_bits p.adata 32)
unfolding condition_narrow
condition_narrow-compare c s p raw h lo hi =
    let a = array p raw (control p raw false) in
    let t = bit (rol (low_bits p.mdata 32) (rotation c raw)) 0 in
    let j = array-jump p raw in
    picked (bit raw 5) _ _ h ∙ selected (field raw 0 3) t _ _ a s j.0 j.1 lo hi
