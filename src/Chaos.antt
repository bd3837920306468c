-- ===== src/Chaos.antt =====
-- src/chaos/: the Chaosnet packet as software and hardware lay it out, and the cable's coding.
pub mod Packet
pub mod Check
pub mod Frame
pub mod Wire
pub mod Link
