-- ===== src/Assembler.antt =====
-- src/assembler: the checks of a program, and the assembly of a module into an object.
pub mod Sema
pub mod Layout
pub mod Emission
