-- ===== src/Examples.antt =====
-- The theorems at work on concrete instructions, memories and programs.
pub mod Instructions
pub mod Machines
pub mod Optimizer
pub mod Lowering
pub mod Linking
pub mod Assembling
