-- ===== src/Processor.antt =====
-- The processor: src/ttl.rs, src/muldiv.rs, src/isa.rs.
pub mod Alu
pub mod Muldiv
pub mod Isa
