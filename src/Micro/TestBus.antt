-- ===== src/Micro/TestBus.antt =====
-- The bus of the tests: what the engine's devices are instantiated with there.
use muir.Base.{false}
use muir.Base.Memory.{Memory, update}
use muir.Micro.State.{Devices}

-- A bus with a main memory alone.
abbrev pub memory_bus : Devices Memory
memory_bus = record {
  bus_read = λ ns b a. (b.devices a, b);
  bus_write = λ ns b a w. record b { devices = update b.devices a w };
  interrupt = λ ns b. false;
  advance = λ ns d. d;
  bus_reset = λ ns d. d;
}
