-- ===== src/Chaos/Frame/Examples.antt =====
-- A short buffer framed from station 0o3050 to station 0o3060.
use muir.Base.{ℕ, List, [], ◌∷◌, ◌≡◌, arith}
use muir.Chaos.Frame.{frame, unframe, ok}
use muir.Chaos.Frame.RoundTrip.{framed_of, unframe-frame}

abbrev buffer : List ℕ
buffer = 0o400 ∷ 0o3060 ∷ []

unframe-frame_example : unframe (frame buffer 0o3050) ≡ ok (framed_of buffer 0o3050)
unframe-frame_example =
    unframe-frame buffer 0o3050 (omega arith, (omega arith, tt)) (omega arith) (omega arith)
