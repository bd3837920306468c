-- ===== src/Processor/Isa/Asm.antt =====
-- src/isa.rs, `asm`: the pieces that a program ors together. Each is a 64-bit number: what is
-- shifted is in its field's range, so that nothing wraps.
use muir.Base.{ℕ, ◌-◌, bit_or, ◌<<<◌, low_bits}
use muir.Processor.Isa.{Insn, insn}

abbrev pub output_alu : ℕ
output_alu = 1 <<< 12

abbrev pub jump : ℕ
jump = 1 <<< 43

abbrev pub seta : ℕ
seta = 5 <<< 3

abbrev pub aeqm : ℕ
aeqm = bit_or (1 <<< 5) 3

abbrev pub src : ℕ → ℕ
src n = bit_or (1 <<< 31) (n <<< 26)

abbrev pub always : ℕ
always = bit_or (1 <<< 5) 7

abbrev pub setm : ℕ
setm = 3 <<< 3

abbrev pub setz : ℕ
setz = 0

abbrev pub add : ℕ
add = 0o31 <<< 3

abbrev pub carry_in : ℕ
carry_in = 1 <<< 2

abbrev pub and_m_a : ℕ
and_m_a = 0o1 <<< 3

abbrev pub andca : ℕ
andca = 0o2 <<< 3

abbrev pub andcm : ℕ
andcm = 0o4 <<< 3

abbrev pub xor : ℕ
xor = 0o6 <<< 3

abbrev pub ior : ℕ
ior = 0o7 <<< 3

abbrev pub andcb : ℕ
andcb = 0o10 <<< 3

abbrev pub eqv : ℕ
eqv = 0o11 <<< 3

abbrev pub setca : ℕ
setca = 0o12 <<< 3

abbrev pub orca : ℕ
orca = 0o13 <<< 3

abbrev pub setcm : ℕ
setcm = 0o14 <<< 3

abbrev pub orcm : ℕ
orcm = 0o15 <<< 3

abbrev pub orcb : ℕ
orcb = 0o16 <<< 3

abbrev pub seto : ℕ
seto = 0o17 <<< 3

abbrev pub sub : ℕ
sub = 0o26 <<< 3

abbrev pub m_plus_m : ℕ
m_plus_m = 0o37 <<< 3

abbrev pub m_plus_c : ℕ
m_plus_c = 0o34 <<< 3

abbrev pub ob_right : ℕ
ob_right = 2 <<< 12

abbrev pub ob_left : ℕ
ob_left = 3 <<< 12

abbrev pub q_left : ℕ
q_left = 1

abbrev pub q_right : ℕ
q_right = 2

abbrev pub q_load : ℕ
q_load = 3

abbrev pub popj : ℕ
popj = 1 <<< 42

abbrev pub dispatch : ℕ
dispatch = 2 <<< 43

abbrev pub byte : ℕ
byte = 3 <<< 43

abbrev pub ldb : ℕ
ldb = 1 <<< 12

abbrev pub dep : ℕ
dep = 2 <<< 12

abbrev pub dpb : ℕ
dpb = 3 <<< 12

abbrev pub dmem_write : ℕ
dmem_write = 2 <<< 10

abbrev pub stat : ℕ
stat = 1 <<< 46

abbrev pub src_md : ℕ
src_md = src (0o12)

abbrev pub src_q : ℕ
src_q = src (0o7)

abbrev pub start_read : ℕ
start_read = bit_or (0o21 <<< 19) (0o37 <<< 14)

abbrev pub start_write : ℕ
start_write = bit_or (0o22 <<< 19) (0o37 <<< 14)

abbrev pub md : ℕ
md = bit_or (0o30 <<< 19) (0o37 <<< 14)

abbrev pub vma : ℕ
vma = bit_or (0o20 <<< 19) (0o37 <<< 14)

abbrev pub r_bit : ℕ
r_bit = 1 <<< 9

abbrev pub p_bit : ℕ
p_bit = 1 <<< 8

abbrev pub n_bit : ℕ
n_bit = 1 <<< 7

abbrev pub invert : ℕ
invert = 1 <<< 6

abbrev pub from_a : ℕ → ℕ
from_a a = a <<< 32

abbrev pub from_m : ℕ → ℕ
from_m m = m <<< 26

abbrev pub a_dest : ℕ → ℕ
a_dest a = bit_or (1 <<< 25) (a <<< 14)

abbrev pub m_dest : ℕ → ℕ
m_dest m = m <<< 14

abbrev pub target : ℕ → ℕ
target pc = pc <<< 12

abbrev pub test_bit : ℕ → ℕ
test_bit b = low_bits (32 - b) 5

abbrev pub rot : ℕ → ℕ
rot n = low_bits n 5

abbrev pub width : ℕ → ℕ
width n = (n - 1) <<< 5

abbrev pub d_addr : ℕ → ℕ
d_addr a = a <<< 12

abbrev pub d_len : ℕ → ℕ
d_len n = n <<< 5

abbrev pub filler : Insn
filler = insn (bit_or (bit_or (bit_or output_alu seta) (from_a 3)) (a_dest 64))
