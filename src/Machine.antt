-- ===== src/Machine.antt =====
-- src/machine.rs: the parts of the machine that the engines share.
pub mod Geometry
pub mod Console
pub mod Timer
pub mod Map
pub mod Spc
pub mod FileDevice
pub mod Saves
pub mod MacroDispatch
