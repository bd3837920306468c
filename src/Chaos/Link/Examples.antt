-- ===== src/Chaos/Link/Examples.antt =====
-- A packet delivered from station 0o3050 to station 0o3060.
use muir.Base.{ℕ, List, [], ◌∷◌, ◌≡◌, map, arith}
use muir.Chaos.Frame.{frame, unframe_any}
use muir.Chaos.Frame.RoundTrip.{framed_of}
use muir.Chaos.Wire.{encode, decode}
use muir.Chaos.Link.{delivered}

abbrev rfc_buffer : List ℕ
rfc_buffer = 0o400 ∷ 3 ∷ 0o3060 ∷ []

delivered_example :
    map unframe_any (decode (encode (frame rfc_buffer 0o3050)))
    ≡ record { framed = framed_of rfc_buffer 0o3050; bits = 80 } ∷ []
delivered_example =
    delivered rfc_buffer 0o3050 (omega arith, (omega arith, (omega arith, tt))) (omega arith)
      (omega arith)
