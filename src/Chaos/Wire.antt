-- ===== src/Chaos/Wire.antt =====
-- src/chaos/wire.rs: the biphase coding of a packet's bits on the cable, and the receiver's decoder.
pub mod Fuel
pub mod RoundTrip
mod Examples
use muir.Base.{ℕ, zero, suc, ◌+◌, ◌*◌, ◌/◌, min, max, List, [], ◌∷◌, ◌++◌, Bool, true, false, not}
use muir.Base.{◌&&◌, Option, some, none, ltb, leb, if◌then◌else◌, xor}

abbrev pub cell_ns : ℕ
cell_ns = 250

abbrev pub sample_ns : ℕ
sample_ns = 175

abbrev pub lockout_ns : ℕ
lockout_ns = 170

abbrev pub idle_ns : ℕ
idle_ns = 2 * cell_ns + cell_ns / 2

-- `a == b` on levels.
abbrev pub same : Bool → Bool → Bool
same true b = b
same false b = not b

-- A level change: its time and the new level.
abbrev pub Change : Type 0
Change = ℕ × Bool

-- The loop of `encode` from cell `k`, with the level and the previous bit.
unfoldable pub encode_from : ℕ → Bool → Bool → List Bool → List Change
encode_from k level prev [] = []
encode_from k level prev (bit ∷ bits) =
    let start = k * cell_ns in
    let opened = not level in
    let repeats = same bit prev in
    let settled = if repeats then not opened else opened in
    let rest = encode_from (k + 1) settled bit bits in
    (start, opened) ∷ (if repeats then (start + cell_ns / 2, settled) ∷ rest else rest)

unfoldable pub encode : List Bool → List Change
encode bits = encode_from 0 false false bits

pub record Decoder : Type 0 where
  pub level : Bool
  pub cell : Option ℕ
  pub sample : Option ℕ
  pub bits : List Bool
  pub last_edge : Option ℕ

abbrev pub new : Decoder
new = record { level = false; cell = none; sample = none; bits = []; last_edge = none }

-- The guard of the lockout arm of `edge`.
abbrev pub locked_out : Option ℕ → ℕ → Bool
locked_out none t = false
locked_out (some start) t = ltb t (start + lockout_ns)

unfoldable pub edge : Decoder → ℕ → Bool → Decoder
edge d t level =
    if same level d.level
    then d
    else if locked_out d.cell t
    then record d { level = level; last_edge = some t }
    else record d {
      level = level;
      last_edge = some t;
      cell = some t;
      sample = some (t + sample_ns);
    }

abbrev pub is_some : Option ℕ → Bool
is_some none = false
is_some (some x) = true

-- The moment the line will have been idle long enough, if it is low in a packet.
abbrev pub idle_due : Bool → Option ℕ → Option ℕ
idle_due waiting none = none
idle_due waiting (some e) = if waiting then some (e + idle_ns) else none

-- The match that ends `next_due`.
abbrev pub earlier : Option ℕ → Option ℕ → Option ℕ
earlier none i = i
earlier (some s) none = some s
earlier (some s) (some i) = some (min s i)

unfoldable pub next_due : Decoder → Option ℕ
next_due d = earlier d.sample (idle_due (is_some d.cell && not d.level) d.last_edge)

-- The first half of `at`: a sample that is due is taken.
abbrev pub take_sample : Option ℕ → Decoder → ℕ → Decoder
take_sample none d t = d
take_sample (some s) d t =
    if leb s t then record d { bits = d.bits ++ (d.level ∷ []); sample = none } else d

-- The second half of `at`: whether the line has been idle since its last edge.
abbrev pub idle_reached : Option ℕ → Option ℕ → ℕ → Bool → Bool
idle_reached none e t level = false
idle_reached (some c) none t level = false
idle_reached (some c) (some e) t level = leb (e + idle_ns) t && not level

unfoldable pub at : Decoder → ℕ → Decoder × Option (List Bool)
at d t =
    let d' = take_sample d.sample d t in
    if idle_reached d'.cell d'.last_edge t d'.level
    then (record d' { cell = none; sample = none; bits = [] }, some d'.bits)
    else (d', none)

abbrev pub push : List (List Bool) → Option (List Bool) → List (List Bool)
push out none = out
push out (some p) = out ++ (p ∷ [])

-- The local variables of `decode`.
pub record Run : Type 0 where
  pub decoder : Decoder
  pub time : ℕ
  pub out : List (List Bool)

-- One call of `at` in a loop of `decode`.
unfoldable pub tick : Run → ℕ → Run
tick r t = let (d, p) = at r.decoder t in record { decoder = d; time = t; out = push r.out p }

-- The inner loop before the change at `limit`, on fuel.
unfoldable pub drain : ℕ → ℕ → Run → Run
drain zero limit r = r
drain (suc fuel) limit r = elim (next_due r.decoder) [
  | none ↦ r
  | some due ↦ if leb due limit then drain fuel limit (tick r due) else r
]

-- The last loop, on fuel.
unfoldable pub finish : ℕ → Run → Run
finish zero r = r
finish (suc fuel) r = elim (next_due r.decoder) [
  | none ↦ r
  | some due ↦ finish fuel (tick r (max due r.time))
]

-- Either loop takes at most a sample and an end of packet.
abbrev pub rounds : ℕ
rounds = 3

unfoldable pub change : Run → Change → Run
change r (t, level) =
    let r' = drain rounds t r in
    record r' { time = max r'.time t; decoder = edge r'.decoder t level }

unfoldable pub changes : Run → List Change → Run
changes r [] = r
changes r (c ∷ cs) = changes (change r c) cs

unfoldable pub decode : List Change → List (List Bool)
decode cs = (finish rounds (changes (record { decoder = new; time = 0; out = [] }) cs)).out
