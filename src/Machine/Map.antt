-- ===== src/Machine/Map.antt =====
-- src/machine.rs, `translate` and `write_map`: the two-level virtual memory map.
pub mod Cadr
pub mod Revision13
mod Examples
use muir.Base.{
  ℕ, ◌+◌, ◌-◌, ◌*◌, ◌/◌, ◌%◌, ◌^◌, bit_or, Bool, ltb, not, ◌==◌, if◌then◌else◌, bit, ◌<<<◌,
}
use muir.Base.{◌>>>◌, low_bits}
use muir.Base.Memory.{Memory, update}
use muir.Machine.Geometry.{Geometry, wide}

unfoldable pub l1_from_vma : Geometry → ℕ → ℕ
l1_from_vma g vma =
    let low = low_bits (vma >>> 27) 5 in
    if ltb 5 g.l1_bits then bit_or low (low_bits (vma >>> 24) 1 <<< 5) else low

-- `l1 & self.l1_mask()`, the mask of `l1_bits` ones.
abbrev pub l1_masked : Geometry → ℕ → ℕ
l1_masked g l1 = low_bits l1 g.l1_bits

unfoldable pub l2_index : Geometry → ℕ → ℕ → ℕ
l2_index g l1 addr = bit_or (l1_masked g l1 <<< 5) (low_bits (addr >>> 8) 5)

-- The two memories of the map.
pub record Maps : Type 0 where
  pub l1_map : Memory
  pub l2_map : Memory

pub record Translation : Type 0 where
  pub physical : ℕ
  pub page : ℕ
  pub l1_data : ℕ
  pub l2_data : ℕ
  pub write_permitted : Bool
  pub access_permitted : Bool

abbrev pub invalid_block_13 : ℕ
invalid_block_13 = 0o177

unfoldable pub map_level_2_index_13 : ℕ → ℕ → ℕ
map_level_2_index_13 l1 addr = bit_or (low_bits l1 7 <<< 5) (low_bits (addr >>> 10) 5)

unfoldable pub map_level_1_13 : Maps → ℕ → ℕ
map_level_1_13 m addr =
    if not (addr >>> 28 == 0)
    then invalid_block_13
    else low_bits (m.l1_map (low_bits (addr >>> 15) 13)) 7

unfoldable pub translate_13 : Maps → ℕ → Translation
translate_13 m vaddr =
    let l1_data = map_level_1_13 m vaddr in
    let l2_data = m.l2_map (map_level_2_index_13 l1_data vaddr) in
    let page = low_bits l2_data 18 in
    record {
      physical = bit_or (low_bits (page <<< 10) 32) (low_bits vaddr 10);
      page = page;
      l1_data = l1_data;
      l2_data = l2_data;
      write_permitted = bit l2_data 26;
      access_permitted = bit l2_data 27;
    }

unfoldable pub write_map_13 : Maps → ℕ → ℕ → Maps
write_map_13 m vma addr =
    if not (addr >>> 28 == 0)
    then m
    else if bit vma 29
    then record m { l1_map = update m.l1_map (low_bits (addr >>> 15) 13) (low_bits (vma >>> 32) 7) }
    else if bit vma 28
    then record m {
      l2_map =
          update m.l2_map (map_level_2_index_13 (map_level_1_13 m addr) addr) (low_bits vma 28);
    }
    else m

-- The body of `translate` on a machine that is not wide.
unfoldable pub translate_narrow : Geometry → Maps → ℕ → Translation
unfolding l2_index
translate_narrow g m full =
    let vaddr = low_bits full 24 in
    let l1_data = l1_masked g (m.l1_map (low_bits (vaddr >>> 13) 11)) in
    let l2_data = m.l2_map (l2_index g l1_data vaddr) in
    let page = low_bits l2_data 14 in
    record {
      physical = bit_or (low_bits (page <<< 8) 32) (low_bits vaddr 8);
      page = page;
      l1_data = l1_data;
      l2_data = l2_data;
      write_permitted = bit l2_data 22;
      access_permitted = bit l2_data 23;
    }

unfoldable pub translate : Geometry → Maps → ℕ → Translation
translate g m vaddr = if wide g then translate_13 m vaddr else translate_narrow g m vaddr

-- The first `if` of `write_map`.
unfoldable pub write_level_1 : Geometry → Maps → ℕ → ℕ → Maps
unfolding l1_from_vma
write_level_1 g m vma l1_index =
    if bit vma 26 then record m { l1_map = update m.l1_map l1_index (l1_from_vma g vma) } else m

-- The body of `write_map` on a machine that is not wide: level 1, then level 2.
unfoldable pub write_map_narrow : Geometry → Maps → ℕ → ℕ → Maps
unfolding write_level_1 l2_index
write_map_narrow g m vma md =
    let l1_index = low_bits (md >>> 13) 11 in
    let m1 = write_level_1 g m vma l1_index in
    if bit vma 25
    then (let l1_data = if bit vma 26 then 0 else m1.l1_map l1_index in
        record m1 { l2_map = update m1.l2_map (l2_index g l1_data md) (low_bits vma 24) })
    else m1

unfoldable pub write_map : Geometry → Maps → ℕ → ℕ → Maps
write_map g m vma md =
    if wide g
    then write_map_13 m vma (low_bits md 32)
    else write_map_narrow g m (low_bits vma 32) (low_bits md 32)
