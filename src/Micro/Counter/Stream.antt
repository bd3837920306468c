-- ===== src/Micro/Counter/Stream.antt =====
-- The fetches of the macroinstruction stream, as the location counter steps.
use muir.Machine.Geometry.{Geometry}
use muir.Micro.Counter.{Counter}
