-- ===== src/Vm/Cpu.antt =====
-- include/minitool/vm/vm.hpp and the stack of src/vm/vm.cpp: the state of the virtual CPU. It is
-- passed on beside a fault too, since what was done before stays done. The provider of system calls
-- has any state `P`. Fault messages are left out.
use mini_tool_chain.Base.{
  ℕ, ◌-◌, ◌^◌, Bool, false, ◌&&◌, Option, List, ltb, leb, if◌then◌else◌, Expected, ok, err, get_or,
  set, replicate,
}
use mini_tool_chain.Word.{add64, sub64}
use mini_tool_chain.Isa.Encoding.{Instruction}
use mini_tool_chain.Vm.Memory.{
  VirtualMemory, MemoryFault, MemoryErrorKind, read_denied, write_denied, execute_denied,
  out_of_memory, MemoryResult, read_u64, write_u64,
}

pub record CpuState : Type 0 where
  pub registers : List ℕ
  pub pc : ℕ
  pub sp : ℕ
  pub flags : ℕ
  pub halted : Bool
  pub instruction_count : ℕ
  pub exit_code : ℕ

abbrev pub initial_cpu : CpuState
initial_cpu = record {
  registers = replicate 16 0;
  pc = 0;
  sp = 0;
  flags = 0;
  halted = false;
  instruction_count = 0;
  exit_code = 0;
}

-- `no_error` is `VMError::None`.
pub data VmError : Type 0 where
  no_error invalid_memory_access permission_violation illegal_instruction : VmError
  division_by_zero_error stack_overflow stack_underflow syscall_error : VmError
  budget_exhausted not_loaded : VmError

pub record VmFault : Type 0 where
  pub error : VmError
  pub pc : ℕ

pub record RunResult : Type 0 where
  pub error : VmError
  pub exit_code : ℕ
  pub instructions : ℕ
  pub pc : ℕ

abbrev pub stack_top_default : ℕ
stack_top_default = 0x7fff0000

abbrev pub stack_size : ℕ
stack_size = 2 ^ 20

abbrev pub heap_base : ℕ
heap_base = 0x10000000

abbrev pub heap_size : ℕ
heap_size = 2 ^ 20

-- `trace` holds the calls of the trace sink, oldest first, if one is set.
pub record VirtualMachine (P : Type 0) : Type 0 where
  pub cpu : CpuState
  pub memory : VirtualMemory
  pub syscalls : P
  pub trace : Option (List (ℕ × Instruction))
  pub loaded : Bool
  pub stack_top : ℕ
  pub stack_limit : ℕ

abbrev pub Step : Type 0 → Type 0 → Type 0
Step P A = VirtualMachine P × Expected VmFault A

module _ {P : Type 0} where
  abbrev pub trap : {A : Type 0} → VirtualMachine P → VmError → ℕ → Step P A
  trap m e pc = (m, err (record { error = e; pc = pc }))

  abbrev pub done : VirtualMachine P → Step P (Unit {0})
  done m = (m, ok tt)

  abbrev pub set_register : VirtualMachine P → ℕ → ℕ → VirtualMachine P
  set_register m i value = record m {
    cpu = record m.cpu { registers = set m.cpu.registers i value };
  }

  abbrev pub register : VirtualMachine P → ℕ → ℕ
  register m i = get_or m.cpu.registers i 0

  memory_error : VirtualMachine P → MemoryErrorKind → ℕ → VmError
  memory_error m read_denied address = permission_violation
  memory_error m write_denied address = permission_violation
  memory_error m execute_denied address = permission_violation
  memory_error m out_of_memory address = invalid_memory_access
  memory_error m _ address =
      if ltb address m.stack_limit && leb (m.stack_limit - address) stack_size
      then stack_overflow
      else invalid_memory_access

  pub fault_from_memory : VirtualMachine P → MemoryFault → VmError
  unfolding memory_error
  fault_from_memory m f = memory_error m f.kind f.address

  unfoldable pub pushed : VirtualMachine P → ℕ → ℕ → MemoryResult VirtualMemory → Step P (Unit {0})
  unfolding fault_from_memory
  pushed m target pc (err f) = trap m (fault_from_memory m f) pc
  pushed m target pc (ok memory') =
      done (record m { memory = memory'; cpu = record m.cpu { sp = target } })

  unfoldable pub push_value : VirtualMachine P → ℕ → ℕ → Step P (Unit {0})
  unfolding pushed
  push_value m value pc =
      let target = sub64 m.cpu.sp 8 in
      if ltb m.cpu.sp (add64 m.stack_limit 8)
      then trap m stack_overflow pc
      else pushed m target pc (write_u64 m.memory target value)

  unfoldable pub popped : VirtualMachine P → ℕ → MemoryResult ℕ → Step P ℕ
  unfolding fault_from_memory
  popped m pc (err f) = trap m (fault_from_memory m f) pc
  popped m pc (ok value) = (record m { cpu = record m.cpu { sp = add64 m.cpu.sp 8 } }, ok value)

  unfoldable pub pop_value : VirtualMachine P → ℕ → Step P ℕ
  unfolding popped
  pop_value m pc =
      if leb m.stack_top m.cpu.sp
      then trap m stack_underflow pc
      else popped m pc (read_u64 m.memory m.cpu.sp)
