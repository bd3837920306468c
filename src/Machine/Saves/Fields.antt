-- ===== src/Machine/Saves/Fields.antt =====
-- Each part of the machine's head is read back as it was written.
use muir.Base.{ℕ, suc, ◌^◌, ◌≤◌, ◌<◌, ◌≡◌, refl, ap, ap₂, ◌∙◌, subst, arith}
use muir.Base.{false, List, [], ◌∷◌, map, All, AllBelow, length, ltb}
use muir.Checkpoint.Writer
use muir.Checkpoint.Reader
use muir.Checkpoint.Codec.{Saves, Saves-seq, Saves-pure, Saves-pure_of, Saves-here}
use muir.Checkpoint.Codec.Fields.{Saves-bool, Saves-u8, Saves-u16, Saves-u64}
use muir.Checkpoint.Codec.Sequences.{Saves-u64s_into, Saves-u32s_into}
use muir.Checkpoint.Codec.Words.{Saves-words}
use muir.Machine.Console.Saves.{Saves-mode, Saves-clock_control, Saves-opc_control}
use muir.Processor.Isa.{Insn, insn}
use muir.Micro.State.{Console}
use muir.Machine.Saves.{
  put_insns, get_insns, put_console, get_console, put_pointers, get_pointers, spc_checked,
}
use muir.Machine.Saves.State.{Pointers}

abbrev pub InsnsFit : List Insn → Type 0
InsnsFit is = All (λ i. i.raw < 2 ^ 48) is

raws-below : (is : List Insn) → InsnsFit is → AllBelow (2 ^ 64) (map (λ i. i.raw) is)
raws-below [] h = tt
raws-below (i ∷ is) h = (omega (arith, h.0), raws-below is h.1)

raws-insns : (is : List Insn) → InsnsFit is → map insn (map (λ i. i.raw) is) ≡ is
raws-insns [] h = refl
raws-insns (i ∷ is) h =
    ap₂ ◌∷◌ (ap (λ v. record { raw = v }) (omega (arith, h.0))) (raws-insns is h.1)

length-raws : (is : List Insn) → length (map (λ i. i.raw) is) ≡ length is
length-raws [] = refl
length-raws (i ∷ is) = ap suc (length-raws is)

-- A slot of as many items as there are.
abbrev pub Fills {ℓ} : {A : Type ℓ} → List A → ℕ → Type 0
Fills xs slot = (length xs ≡ slot) × (slot < 2 ^ 64)

module _ (n : ℕ) where
  Saves-u64s_slot :
      (xs : List ℕ) (slot : ℕ)
      → length xs ≡ slot
      → slot < 2 ^ 64
      → AllBelow (2 ^ 64) xs
      → Saves n (Writer.u64s xs) (Reader.u64s_into slot) xs
  Saves-u64s_slot xs slot e c h =
      subst (λ k. Saves n (Writer.u64s xs) (Reader.u64s_into k) xs) e
        (Saves-u64s_into n xs (omega arith) h)

  pub Saves-u32s_slot :
      (xs : List ℕ) (slot : ℕ)
      → length xs ≡ slot
      → slot < 2 ^ 64
      → AllBelow (2 ^ 32) xs
      → Saves n (Writer.u32s xs) (Reader.u32s_into slot) xs
  Saves-u32s_slot xs slot e c h =
      subst (λ k. Saves n (Writer.u32s xs) (Reader.u32s_into k) xs) e
        (Saves-u32s_into n xs (omega arith) h)

  pub Saves-words_slot :
      (xs : List ℕ) (slot : ℕ)
      → n ≤ 8
      → length xs ≡ slot
      → slot < 2 ^ 64
      → AllBelow ((2 ^ 8) ^ n) xs
      → Saves n (Writer.words xs) (Reader.words_into slot) xs
  Saves-words_slot xs slot p e c h =
      subst (λ k. Saves n (Writer.words xs) (Reader.words_into k) xs) e
        (Saves-words n xs p h (omega arith))

  pub Saves-insns :
      (is : List Insn) (slot : ℕ)
      → Fills is slot
      → InsnsFit is
      → Saves n (put_insns is) (get_insns slot) is
  unfolding put_insns get_insns
  Saves-insns is slot f h =
      Saves-seq _
        (Saves-u64s_slot (map (λ i. i.raw) is) slot (length-raws is ∙ f.0) f.1 (raws-below is h))
        (Saves-pure_of (raws-insns is h))

  pub Saves-console : (c : Console) → c.debug_ir < 2 ^ 64 → Saves n (put_console c) get_console c
  unfolding put_console get_console
  Saves-console c h = Saves-seq _ (Saves-mode n c.mode) (
      Saves-seq _ (Saves-clock_control n c.clock_control) (
        Saves-seq _ (Saves-opc_control n c.opc_control) (
          Saves-seq _ (Saves-u64 n c.debug_ir h) (
            Saves-seq _ (Saves-bool n c.prog_reset)
              (Saves-seq _ (Saves-bool n c.prog_boot) (Saves-pure c))))))

  spc_checked-keeps : (v : ℕ) → v < 2 ^ 5 → Saves n (λ w. w) (spc_checked v) v
  spc_checked-keeps v h =
      let e : ltb 0o37 v ≡ false = ground arith in Saves-here (λ tail. rw e refl)

  pub Saves-pointers :
      (p : Pointers)
      → p.spcptr < 2 ^ 5
      → p.pdl_pointer < 2 ^ 16
      → p.pdl_index < 2 ^ 16
      → Saves n (put_pointers p) get_pointers p
  unfolding put_pointers get_pointers
  Saves-pointers p h i j = Saves-seq _ (Saves-u8 n p.spcptr) (
      Saves-seq {g = spc_checked p.spcptr} _ (spc_checked-keeps p.spcptr h) (
        Saves-seq _ (Saves-u16 n p.pdl_pointer i)
          (Saves-seq _ (Saves-u16 n p.pdl_index j) (Saves-pure p))))
