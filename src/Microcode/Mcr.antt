-- ===== src/Microcode/Mcr.antt =====
-- src/mcr.rs: the reader of MCR microcode files. A reader's state is the bytes not yet taken,
-- `b[at..]`, and an error's offset is left out.
use muir.Base.{ℕ, zero, suc, ◌+◌, ◌-◌, ◌*◌, ◌/◌, ◌%◌, ◌^◌, bit_or, Bool, true, false, List, [], ◌∷◌}
use muir.Base.{
  Option, none, some, length, take, drop, get_or, leb, ltb, ◌==◌, ◌&&◌, ◌||◌, not, ◌<<<◌,
}
use muir.Base.{if◌then◌else◌, ◌>>>◌, low_bits}
use muir.Processor.Isa.{Insn, insn}
use muir.Microcode.{
  Error, Result, ok, err, ◌>>=◌, ◌>>◌, refuse, short_read, bits_above_48, bad_dispatch_size,
  a_memory_start, unknown_code, not_whole_words, past_control_store, high_word, mit_order,
  out_of_fuel,
}
pub mod Halves
pub mod Items
pub mod Bounds
pub mod Order
pub mod Examples

pub record Mcr : Type 0 where
  pub trailing_bytes : ℕ
  pub imem_start : ℕ
  pub imem : List Insn
  pub dmem_start : ℕ
  pub dmem : List ℕ
  pub amem_start : ℕ
  pub amem : List ℕ
  pub amem_wide : Bool
  pub main_memory : Option (ℕ × ℕ)

-- `Mcr::default()`
abbrev pub default_mcr : Mcr
default_mcr = record {
  trailing_bytes = 0;
  imem_start = 0;
  imem = [];
  dmem_start = 0;
  dmem = [];
  amem_start = 0;
  amem = [];
  amem_wide = false;
  main_memory = none;
}

-- `Mcr::version`
unfoldable pub version : Mcr → Option ℕ
version m =
    if ltb 0o40 m.amem_start || leb (length m.amem) (0o40 - m.amem_start)
    then none
    else some (low_bits (get_or m.amem (0o40 - m.amem_start) 0) 24)

-- `Reader::take`, `u32_pdp`, `u16_le` and `insn`.
pub take_bytes : ℕ → List ℕ → Result (List ℕ × List ℕ)
take_bytes n b = if leb n (length b) then ok (take n b, drop n b) else err (short_read n)

pub u32_pdp : List ℕ → Result (ℕ × List ℕ)
u32_pdp r = do
  (b, r) ← take_bytes 4 r
  ok (
    bit_or (bit_or (bit_or (get_or b 1 0 <<< 24) (get_or b 0 0 <<< 16)) (get_or b 3 0 <<< 8))
        (get_or b 2 0),
    r,
  )

pub u16_le : List ℕ → Result (ℕ × List ℕ)
u16_le r = do (b, r) ← take_bytes 2 r; ok (bit_or (get_or b 1 0 <<< 8) (get_or b 0 0), r)

pub read_insn : List ℕ → Result (Insn × List ℕ)
read_insn r = do
  (w1, r) ← u16_le r
  (w2, r) ← u16_le r
  (w3, r) ← u16_le r
  (w4, r) ← u16_le r
  refuse (not (w1 == 0)) (bits_above_48 w1)
  ok (insn (bit_or (bit_or (w2 <<< 32) (w3 <<< 16)) w4), r)

-- `(0..size).map(|_| item()).collect()`
pub times {ℓ} :
    {A : Type ℓ} → ℕ → (List ℕ → Result (A × List ℕ)) → List ℕ → Result (List A × List ℕ)
times zero item r = ok ([], r)
times (suc n) item r = do (a, r) ← item r; (more, r) ← times n item r; ok (a ∷ more, r)

-- A 40-bit word of section 5: its low word, then the high one, which is the tag alone.
pub wide_word : ℕ → List ℕ → Result (ℕ × List ℕ)
wide_word at r = do
  (low, r) ← u32_pdp r
  (high, r) ← u32_pdp r
  refuse (not (high >>> 8 == 0)) (high_word at high)
  ok (bit_or (high <<< 32) low, r)

-- The loop of section 5, from the location `at`.
pub wide_words : ℕ → ℕ → List ℕ → Result (List ℕ × List ℕ)
wide_words at zero r = ok ([], r)
wide_words at (suc n) r = do
  (w, r) ← wide_word at r
  (more, r) ← wide_words (at + 1) n r
  ok (w ∷ more, r)

-- After a section, the next, or the end of the loop.
pub data Next : Type 0 where
  go_on stop : Mcr → List ℕ → Next

pub imem_section : Mcr → ℕ → ℕ → List ℕ → Result Next
imem_section m start size r = do
  refuse (ltb 0o40000 (start + size)) (past_control_store start size)
  (words, r) ← times size read_insn r
  ok (go_on (record m { imem_start = start; imem = words }) r)

pub dmem_section : Mcr → ℕ → ℕ → List ℕ → Result Next
dmem_section m start size r = do
  refuse (not (size == 0o4000) && not (size == 0o10000)) (bad_dispatch_size size)
  (words, r) ← times size u32_pdp r
  ok (go_on (record m { dmem_start = start; dmem = words }) r)

pub main_section : Mcr → ℕ → ℕ → List ℕ → Result Next
main_section m start size r = do
  (address, r) ← u32_pdp r
  ok (go_on (record m { main_memory = some (size, start) }) r)

pub amem_section : Mcr → ℕ → ℕ → List ℕ → Result Next
amem_section m start size r = do
  refuse (leb 0o2000 start) (a_memory_start start)
  (words, r) ← times size u32_pdp r
  ok (stop (record m { amem_start = start; amem = words }) r)

pub wide_section : Mcr → ℕ → ℕ → List ℕ → Result Next
wide_section m start size r = do
  refuse (leb 0o2000 start) (a_memory_start start)
  (words, r) ← wide_words start size r
  ok (stop (record m { amem_start = start; amem_wide = true; amem = words }) r)

-- The match on a section's code.
unfoldable pub section : ℕ → Mcr → ℕ → ℕ → List ℕ → Result Next
section (suc zero) = imem_section
section (suc (suc zero)) = dmem_section
section (suc (suc (suc zero))) = main_section
section (suc (suc (suc (suc zero)))) = amem_section
section (suc (suc (suc (suc (suc zero))))) = wide_section
section code = λ m start size r. err (unknown_code code)

pub one_section : Mcr → List ℕ → Result Next
one_section m r = do
  (code, r) ← u32_pdp r
  (start, r) ← u32_pdp r
  (size, r) ← u32_pdp r
  section code m start size r

-- The loop of `parse`, on fuel: a section takes twelve bytes at least.
pub sections : ℕ → Mcr → List ℕ → Result Mcr
sections zero m r = err out_of_fuel
sections (suc n) m r = do
  next ← one_section m r
  elim next [ stop m r ↦ ok (record m { trailing_bytes = length r }) | go_on m r ↦ sections n m r ]

pub parse : List ℕ → Result Mcr
parse bytes = sections (suc (length bytes)) default_mcr bytes

-- The swap of `swap_halves`, four bytes at a time; what is not a whole word is left out.
abbrev pub swapped : List ℕ → List ℕ
swapped (a ∷ b ∷ c ∷ d ∷ rest) = c ∷ d ∷ a ∷ b ∷ swapped rest
swapped bytes = []

pub swap_halves : List ℕ → Result (List ℕ)
swap_halves bytes =
    if not (length bytes % 4 == 0) then err (not_whole_words (length bytes)) else ok (swapped bytes)

-- The error of a file in partition order, by whether it reads in MIT's.
abbrev pub order_error : Error → Result Mcr → Error
order_error e (ok m) = mit_order
order_error e (err e') = e

abbrev pub or_mit_order : Result Mcr → List ℕ → Result Mcr
or_mit_order (ok m) bytes = ok m
or_mit_order (err e) bytes = err (order_error e (parse bytes))

pub parse_partition_order : List ℕ → Result Mcr
parse_partition_order bytes = do swapped ← swap_halves bytes; or_mit_order (parse swapped) bytes
