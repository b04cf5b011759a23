-- ===== src/Object.antt =====
-- Object files: src/object, include/minitool/object, and the symbol table of
-- include/minitool/assembler/symbol_table.hpp.
pub mod Relocation
pub mod Symbols
pub mod Files
