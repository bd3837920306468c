-- ===== src/Micro.antt =====
-- src/micro.rs: the engine that runs a microinstruction at a time.
pub mod Shifter
pub mod Stack
pub mod Pdl
pub mod Counter
pub mod State
pub mod Spy
pub mod Port
pub mod Sources
pub mod Dests
pub mod Arithmetic
pub mod Bytes
pub mod Conditions
pub mod Jumps
pub mod Dispatch
pub mod Edge
pub mod Operands
pub mod Step
pub mod Boot
pub mod Saves
mod TestBus
