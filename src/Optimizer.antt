-- ===== src/Optimizer.antt =====
-- The optimizer: include/minitool/optimizer/optimizer.hpp and src/optimizer/optimizer.cpp.
pub mod Queries
pub mod Flow
pub mod Liveness
pub mod Cells
pub mod Peephole
pub mod Folding
pub mod Passes
