-- ===== src/Machine/Map/Revision13.antt =====
-- Revision 13's map: what a store to it changes, and the addresses outside its 28 bits.
use muir.Base.{ℕ, ◌+◌, ◌*◌, ◌/◌, ◌%◌, ◌^◌, ◌≤◌, ◌<◌, true, false, ◌≡◌, refl, ap, ◌∙◌}
use muir.Base.{arith, bit, bit_or, ◌==◌}
use muir.Base.Bits.{bit_or-disjoint}
use muir.Base.Memory.{Memory, update, update_self}
use native.Mathlib.Nat.{mod-eq_of_lt}
use muir.Machine.Map.{Maps, translate_13, write_map_13, map_level_1_13}
use muir.Machine.Map.{map_level_2_index_13, invalid_block_13}

level_2_index-eq : (l1 addr : ℕ) → map_level_2_index_13 l1 addr ≡ l1 % 2 ^ 7 * 32 + addr / 1024 % 32
unfolding map_level_2_index_13
level_2_index-eq l1 addr = bit_or-disjoint 5 (l1 % 2 ^ 7) (addr / 2 ^ 10 % 2 ^ 5) (omega arith)

entry : Maps → ℕ → ℕ
entry m vaddr = m.l2_map (map_level_2_index_13 (map_level_1_13 m vaddr) vaddr)

translate_13-entry :
    (m : Maps) (vaddr : ℕ)
    → let t = translate_13 m vaddr in
      (t.physical ≡ entry m vaddr % 2 ^ 18 * 1024 + vaddr % 1024)
      × (t.write_permitted ≡ bit (entry m vaddr) 26)
      × (t.access_permitted ≡ bit (entry m vaddr) 27)
unfolding translate_13 entry
translate_13-entry m vaddr = (
  ap (λ x. bit_or x (vaddr % 2 ^ 10))
        (mod-eq_of_lt {n = entry m vaddr % 2 ^ 18 * 2 ^ 10} {m = 2 ^ 32} (omega arith))
      ∙ bit_or-disjoint 10 (entry m vaddr % 2 ^ 18) (vaddr % 2 ^ 10) (omega arith)
      ∙ omega arith,
  refl,
  refl,
)

level_1_same :
    (m : Maps) (addr vaddr : ℕ)
    → addr < 2 ^ 28
    → vaddr / 1024 ≡ addr / 1024
    → map_level_1_13 m vaddr ≡ map_level_1_13 m addr
unfolding map_level_1_13
level_1_same m addr vaddr fits same =
    let inside : (addr / 2 ^ 28 == 0) ≡ true = ground arith in
    let inside' : (vaddr / 2 ^ 28 == 0) ≡ true = ground arith in
    let index : vaddr / 2 ^ 15 % 2 ^ 13 ≡ addr / 2 ^ 15 % 2 ^ 13 = omega arith in
    rw (inside, inside', index) refl

level_1_of_level_2 :
    (m : Maps) (f : Memory) (addr : ℕ)
    → map_level_1_13 (record m { l2_map = f }) addr ≡ map_level_1_13 m addr
unfolding map_level_1_13
level_1_of_level_2 m f addr = refl

level_2_same :
    (l1 addr vaddr : ℕ)
    → vaddr / 1024 ≡ addr / 1024
    → map_level_2_index_13 l1 vaddr ≡ map_level_2_index_13 l1 addr
level_2_same l1 addr vaddr same = omega (arith, level_2_index-eq l1 vaddr, level_2_index-eq l1 addr)

write_level_2 :
    (m : Maps) (vma addr : ℕ)
    → addr < 2 ^ 28
    → bit vma 29 ≡ false
    → bit vma 28 ≡ true
    → write_map_13 m vma addr ≡ record m {
      l2_map = update m.l2_map (map_level_2_index_13 (map_level_1_13 m addr) addr) (vma % 2 ^ 28);
    }
unfolding write_map_13
write_level_2 m vma addr fits no1 yes2 =
    let inside : (addr / 2 ^ 28 == 0) ≡ true = ground arith in rw (inside, no1, yes2) refl

entry-write_level_2 :
    (m : Maps) (vma addr vaddr : ℕ)
    → addr < 2 ^ 28
    → bit vma 29 ≡ false
    → bit vma 28 ≡ true
    → vaddr / 1024 ≡ addr / 1024
    → entry (write_map_13 m vma addr) vaddr ≡ vma % 2 ^ 28
unfolding entry
entry-write_level_2 m vma addr vaddr fits no1 yes2 same =
    ap (λ n. n.l2_map (map_level_2_index_13 (map_level_1_13 n vaddr) vaddr))
      (write_level_2 m vma addr fits no1 yes2)
    ∙ update_self m.l2_map (map_level_2_index_13 (map_level_1_13 m addr) addr) _ (vma % 2 ^ 28) (
        ap (λ x. map_level_2_index_13 x vaddr)
          (level_1_of_level_2 m _ vaddr ∙ level_1_same m addr vaddr fits same)
        ∙ level_2_same (map_level_1_13 m addr) addr vaddr same)

-- Revision 13, a store with VMA<28> alone maps the page of its address: every 28-bit address in
-- that page translates to the stored physical page at its own offset, with the stored access.
pub translate_13-write_level_2 :
    (m : Maps) (vma addr vaddr : ℕ)
    → addr < 2 ^ 28
    → bit vma 29 ≡ false
    → bit vma 28 ≡ true
    → vaddr / 1024 ≡ addr / 1024
    → let t = translate_13 (write_map_13 m vma addr) vaddr in
      (t.physical ≡ vma % 2 ^ 18 * 1024 + vaddr % 1024)
      × (t.write_permitted ≡ bit vma 26)
      × (t.access_permitted ≡ bit vma 27)
translate_13-write_level_2 m vma addr vaddr fits no1 yes2 same =
    let e = translate_13-entry (write_map_13 m vma addr) vaddr in
    let stored = entry-write_level_2 m vma addr vaddr fits no1 yes2 same in
    (
      e.0 ∙ omega (arith, stored),
      e.1 ∙ ap (λ x. bit x 26) stored ∙ ap (λ x. x == 1) (omega arith),
      e.2 ∙ ap (λ x. bit x 27) stored ∙ ap (λ x. x == 1) (omega arith),
    )

-- Revision 13, an address above 28 bits neither changes the map when stored at nor reads what
-- level 1 holds: it translates through the invalid block.
pub beyond_28_bits :
    (m : Maps) (vma addr : ℕ)
    → 2 ^ 28 ≤ addr
    → (write_map_13 m vma addr ≡ m)
      × ((translate_13 m addr).l1_data ≡ invalid_block_13)
      × ((translate_13 m addr).l2_data ≡ m.l2_map (0o177 * 32 + addr / 1024 % 32))
unfolding write_map_13 translate_13 map_level_1_13
beyond_28_bits m vma addr h = (
  rw outside refl,
  level_1,
  ap m.l2_map
      (ap (λ x. map_level_2_index_13 x addr) level_1 ∙ level_2_index-eq invalid_block_13 addr),
)
  where
    outside : (addr / 2 ^ 28 == 0) ≡ false
    outside = ground arith

    level_1 : map_level_1_13 m addr ≡ invalid_block_13
    level_1 = rw outside refl
