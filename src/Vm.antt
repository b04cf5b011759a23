-- ===== src/Vm.antt =====
-- The virtual machine: src/vm and include/minitool/vm.
pub mod Memory
pub mod Syscall
pub mod Cpu
pub mod Machine
pub mod Loader
pub mod Integrity
