-- ===== src/Machine/Map/Cadr.antt =====
-- The map of the CADR and of QUUX to revision 12: what a store to it changes.
use muir.Base.{ℕ, ◌+◌, ◌*◌, ◌/◌, ◌%◌, ◌^◌, ◌≤◌, ◌<◌, true, false, ◌≡◌, refl, ap, ◌∙◌}
use muir.Base.{arith, bit, bit_or, ◌==◌}
use muir.Base.Bits.{bit_or-disjoint}
use native.Mathlib.Nat.{mod-mod, mod-lt, mod-eq_of_lt, one-le-pow, pow-le-pow_right}
use muir.Base.Memory.{update_self}
use muir.Machine.Geometry.{Geometry, wide}
use muir.Machine.Map.{Maps, translate, translate_narrow, write_map}
use muir.Machine.Map.{write_map_narrow, l2_index, l1_masked}

l2_index-eq :
    (g : Geometry) (l1 addr : ℕ) → l2_index g l1 addr ≡ l1 % 2 ^ g.l1_bits * 32 + addr / 256 % 32
unfolding l2_index
l2_index-eq g l1 addr = bit_or-disjoint 5 (l1 % 2 ^ g.l1_bits) (addr / 256 % 32) (omega arith)

pow_small : (n : ℕ) → n ≤ 6 → 2 ^ n ≤ 64
pow_small n h = pow-le-pow_right {n = 2} (omega arith) h

-- On a machine of at most six level-1 bits every level-2 index lies in the first 2048 entries,
-- so no reading or writing of the map leaves its memories.
pub l2_index-lt : (g : Geometry) (l1 addr : ℕ) → g.l1_bits ≤ 6 → l2_index g l1 addr < 2048
l2_index-lt g l1 addr h = omega (
  arith,
  l2_index-eq g l1 addr,
  mod-lt l1 (one-le-pow g.l1_bits 2 (omega arith)),
  pow_small g.l1_bits h,
)

-- The level-1 index and the level-2 index of an address depend only on its page.
level_1_same :
    (vaddr md : ℕ)
    → vaddr % 2 ^ 24 / 256 ≡ md % 2 ^ 24 / 256
    → vaddr % 2 ^ 24 / 2 ^ 13 % 2 ^ 11 ≡ md / 2 ^ 13 % 2 ^ 11
level_1_same vaddr md same = omega arith

level_2_same :
    (g : Geometry) (l1 vaddr md : ℕ)
    → vaddr % 2 ^ 24 / 256 ≡ md % 2 ^ 24 / 256
    → l2_index g (l1_masked g l1) (vaddr % 2 ^ 24) ≡ l2_index g l1 md
level_2_same g l1 vaddr md same = omega (
  arith,
  l2_index-eq g (l1_masked g l1) (vaddr % 2 ^ 24),
  l2_index-eq g l1 md,
  mod-mod l1 (2 ^ g.l1_bits),
)

-- The level-2 entry that translates an address.
entry : Geometry → Maps → ℕ → ℕ
entry g m vaddr =
    let full = vaddr % 2 ^ 24 in
    m.l2_map (l2_index g (l1_masked g (m.l1_map (full / 2 ^ 13 % 2 ^ 11))) full)

translate_narrow-entry :
    (g : Geometry) (m : Maps) (vaddr : ℕ)
    → let t = translate_narrow g m vaddr in
      (t.physical ≡ entry g m vaddr % 2 ^ 14 * 256 + vaddr % 256)
      × (t.write_permitted ≡ bit (entry g m vaddr) 22)
      × (t.access_permitted ≡ bit (entry g m vaddr) 23)
unfolding translate_narrow entry
translate_narrow-entry g m vaddr = (
  ap (λ x. bit_or x (vaddr % 2 ^ 24 % 2 ^ 8))
        (mod-eq_of_lt {n = entry g m vaddr % 2 ^ 14 * 2 ^ 8} {m = 2 ^ 32} (omega arith))
      ∙ bit_or-disjoint 8 (entry g m vaddr % 2 ^ 14) (vaddr % 2 ^ 24 % 2 ^ 8) (omega arith)
      ∙ omega arith,
  refl,
  refl,
)

module _ (g : Geometry) (m : Maps) (vma md : ℕ) where
  entry-write_level_2 :
      (vaddr : ℕ)
      → bit vma 26 ≡ false
      → bit vma 25 ≡ true
      → vaddr % 2 ^ 24 / 256 ≡ md % 2 ^ 24 / 256
      → entry g (write_map_narrow g m vma md) vaddr ≡ vma % 2 ^ 24
  unfolding entry write_map_narrow
  entry-write_level_2 vaddr no1 yes2 same =
      rw (no1, yes2, level_1_same vaddr md same)
        (update_self m.l2_map (l2_index g (m.l1_map (md / 2 ^ 13 % 2 ^ 11)) md) _ (vma % 2 ^ 24)
          (level_2_same g (m.l1_map (md / 2 ^ 13 % 2 ^ 11)) vaddr md same))

mapped :
    (g : Geometry) (m : Maps) (vma md vaddr : ℕ)
    → bit vma 26 ≡ false
    → bit vma 25 ≡ true
    → vaddr % 2 ^ 24 / 256 ≡ md % 2 ^ 24 / 256
    → let t = translate_narrow g (write_map_narrow g m vma md) vaddr in
      (t.physical ≡ vma % 2 ^ 14 * 256 + vaddr % 256)
      × (t.write_permitted ≡ bit vma 22)
      × (t.access_permitted ≡ bit vma 23)
mapped g m vma md vaddr no1 yes2 same =
    let e = translate_narrow-entry g (write_map_narrow g m vma md) vaddr in
    let stored = entry-write_level_2 g m vma md vaddr no1 yes2 same in
    (
      e.0 ∙ omega (arith, stored),
      e.1 ∙ ap (λ x. bit x 22) stored ∙ ap (λ x. x == 1) (omega arith),
      e.2 ∙ ap (λ x. bit x 23) stored ∙ ap (λ x. x == 1) (omega arith),
    )

-- On a narrow machine, a store that writes level 2 alone maps the page of `MD`: any address in
-- that page then translates to the stored page at its own offset, with the stored permissions.
pub translate-write_level_2 :
    (g : Geometry) (m : Maps) (vma md vaddr : ℕ)
    → wide g ≡ false
    → vma < 2 ^ 32
    → md < 2 ^ 32
    → bit vma 26 ≡ false
    → bit vma 25 ≡ true
    → vaddr % 2 ^ 24 / 256 ≡ md % 2 ^ 24 / 256
    → let t = translate g (write_map g m vma md) vaddr in
      (t.physical ≡ vma % 2 ^ 14 * 256 + vaddr % 256)
      × (t.write_permitted ≡ bit vma 22)
      × (t.access_permitted ≡ bit vma 23)
unfolding translate write_map
translate-write_level_2 g m vma md vaddr narrow hv hm no1 yes2 same =
    rw (narrow, mod-eq_of_lt hv, mod-eq_of_lt hm) (mapped g m vma md vaddr no1 yes2 same)
