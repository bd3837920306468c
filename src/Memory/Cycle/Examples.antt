-- ===== src/Memory/Cycle/Examples.antt =====
-- QUUX's microcycle at normal speed.
use muir.Base.{true, ◌≡◌, refl}
use muir.Memory.Cycle.{sync, normal, cycle_ns}

sync_normal : cycle_ns (sync 4 0) normal true ≡ 40
unfolding cycle_ns
sync_normal = refl
