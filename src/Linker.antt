-- ===== src/Linker.antt =====
-- src/linker/linker.cpp: objects are merged into four regions, their symbols resolved, their
-- relocations applied, and an image built and validated. An error is a constructor in place of its
-- code and message.
pub mod Merging
pub mod Resolving
pub mod Patching
pub mod Building
