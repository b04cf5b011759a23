-- ===== src/Isa.antt =====
-- The instruction set: src/isa and include/minitool/isa.
pub mod Opcode
pub mod Registers
pub mod Encoding
pub mod Semantics
